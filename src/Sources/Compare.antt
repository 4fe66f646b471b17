-- ===== src/Sources/Compare.antt =====
-- internal/sources/compare.go, and `NameKey` of internal/people/people.go. The normal form NFKD is
-- that of golang.org/x/text; the tables of Go's package unicode stand beside it as parameters.
use file_fin.Prelude.{
  ℕ, ◌+◌, ◌-◌, ◌*◌, ◌/◌, max, Bool, true, false, not, ◌&&◌, ◌||◌, Option, none, some, List, [], ◌∷◌,
  leb, ◌==◌, if◌then◌else◌, length, Str, str_eq, bytes, contains, any, pos_part,
}
use file_fin.Strings.{trim_space, fields, join, sort_strings, is_digit, atoi}
use file_fin.Sources.Field.{Policy, Snapshot, text_at}

pub data Class : Type 0 where
  agree : Class  -- ""
  field : Class
  identity : Class

-- The characters of `parenthetical`, `\([^)]*\)`, dropped; the flag is set inside of a match.
drop_parens : Bool → Str → Str
drop_parens inside [] = []
drop_parens true (c ∷ s) = if c == b')' then drop_parens false s else drop_parens true s
drop_parens false (c ∷ s) =
    if c == b'(' && any (λ x. x == b')') s then drop_parens true s else c ∷ drop_parens false s

-- A character that `\b` counts as part of a word.
abbrev is_word : ℕ → Bool
is_word c =
    (leb b'0' c && leb c b'9')
    || (leb b'a' c && leb c b'z')
    || (leb b'A' c && leb c b'Z')
    || c == b'_'

abbrev starts_word : Str → Bool
starts_word [] = false
starts_word (c ∷ s) = is_word c

-- `1[89]\d\d|20\d\d` and the boundary behind it, at the head of a text.
year_here : Str → Option ℕ
unfolding is_digit
year_here (a ∷ b ∷ c ∷ d ∷ s) =
    if ((a == b'1' && (b == b'8' || b == b'9')) || (a == b'2' && b == b'0'))
      && is_digit c
      && is_digit d
      && not (starts_word s)
    then some (1000 * (a - b'0') + 100 * (b - b'0') + 10 * (c - b'0') + (d - b'0'))
    else none
year_here _ = none

year_from : Bool → Str → ℕ
unfolding year_here
year_from after_word [] = 0
year_from after_word (c ∷ s) =
    let later = year_from (is_word c) s in
    elim (if after_word then none else year_here (c ∷ s)) [ none ↦ later | some y ↦ y ]

-- `yearIn`: the first year that stands alone in a text, 0 if there is none.
unfoldable pub year_in : Str → ℕ
unfolding year_from
year_in s = year_from false s

leading_digits : Str → Str
unfolding is_digit
leading_digits [] = []
leading_digits (c ∷ s) = if is_digit c then c ∷ leading_digits s else []

abbrev pub space : Str
space = b' ' ∷ []

unfoldable pub first_int : List Str → ℕ
unfolding leading_digits
first_int v = pos_part (atoi (leading_digits (trim_space (join space v))))

-- `abs(a - b)`
abbrev pub distance : ℕ → ℕ → ℕ
distance a b = (a - b) + (b - a)

-- A `map[string]bool` as the list of its keys, none of them twice.
unfoldable pub add_key : Str → List Str → List Str
add_key k keys = if contains keys k then keys else k ∷ keys

unfoldable pub subset : List Str → List Str → Bool
subset [] b = true
subset (k ∷ a) b = contains b k && subset a b

unfoldable pub same_set : List Str → List Str → Bool
same_set a b = length a == length b && subset a b

unfoldable pub intersects : List Str → List Str → Bool
intersects [] b = false
intersects (k ∷ a) b = contains b k || intersects a b

unfoldable pub fold_all : List Str → (Str → Str) → List Str
fold_all [] key = []
fold_all (v ∷ vs) key =
    let rest = fold_all vs key in if str_eq (key v) [] then rest else add_key (key v) rest

pub record Unicode : Type 0 where
  pub nfkd : Str → Str
  pub is_mn : ℕ → Bool
  pub is_letter : ℕ → Bool
  pub is_digit_u : ℕ → Bool
  pub to_lower : ℕ → ℕ

module _ (uni : Unicode) where
  open uni use {nfkd, is_mn, is_letter, is_digit_u, to_lower}

  fold_runes : Str → Str
  fold_runes [] = []
  fold_runes (r ∷ s) = if is_mn r then fold_runes s else to_lower r ∷ fold_runes s

  unfoldable pub fold : Str → Str
  unfolding fold_runes
  fold s = join space (fields (fold_runes (nfkd s)))

  -- The loop of `NameKey`; 0x2019 is the typographic apostrophe.
  name_runes : Str → Str
  name_runes [] = []
  name_runes (r ∷ s) =
      let rest = name_runes s in
      if is_mn r || (r == b'-' || r == b'\'' || r == 0x2019 || r == b'.')
      then rest
      else if is_letter r || is_digit_u r
      then to_lower r ∷ rest
      else b' ' ∷ rest

  unfoldable pub name_key : Str → Str
  unfolding name_runes
  name_key name = join space (sort_strings (fields (name_runes (nfkd name))))

  unfoldable pub person_key : Str → Str
  unfolding drop_parens
  person_key name = name_key (drop_parens false name)

  unfoldable pub same_values : List Str → List Str → Bool → Bool
  same_values a b list =
      if list
      then same_set (fold_all a fold) (fold_all b fold)
      else str_eq (fold (join space a)) (fold (join space b))

  add_nonempty : Str → List Str → List Str
  add_nonempty k keys = if str_eq k [] then keys else add_key k keys

  unfoldable pub title_keys : Snapshot → List Str
  unfolding add_nonempty
  title_keys s =
      add_nonempty (name_key (text_at s.metadata (bytes "originalTitle")))
        (add_nonempty (name_key s.title) (fold_all s.alt_titles name_key))

  unfoldable pub exact : List Str → List Str → Class
  exact a b = if same_values a b false then agree else field

  unfoldable pub compare_titles : List Str → List Str → Snapshot → Snapshot → Class
  compare_titles a b sa sb =
      if str_eq (name_key (join space a)) (name_key (join space b))
        || (contains (title_keys sb) (name_key (join space a))
            || contains (title_keys sa) (name_key (join space b)))
      then agree
      else field

  unfoldable pub compare_runtimes : List Str → List Str → Class
  compare_runtimes a b =
      if first_int a == 0 || first_int b == 0
      then exact a b
      else if leb (distance (first_int a) (first_int b))
          (max (max (first_int a) (first_int b) / 10) 3)
      then agree
      else field

  unfoldable pub compare_releases : List Str → List Str → Class
  compare_releases a b =
      if year_in (join space a) == 0 || year_in (join space b) == 0
      then exact a b
      else if year_in (join space a) == year_in (join space b)
      then agree
      else field

  unfoldable pub compare : Policy → List Str → List Str → Snapshot → Snapshot → Class
  unfolding compare_titles compare_runtimes compare_releases
  compare Policy.title a b sa sb = compare_titles a b sa sb
  compare Policy.year a b sa sb =
      if distance (first_int a) (first_int b) == 0
      then agree
      else if distance (first_int a) (first_int b) == 1
      then field
      else identity
  compare Policy.kind a b sa sb = if same_values a b false then agree else identity
  compare Policy.id a b sa sb = if same_values a b false then agree else identity
  compare Policy.runtime a b sa sb = compare_runtimes a b
  compare Policy.release a b sa sb = compare_releases a b
  compare Policy.directors a b sa sb =
      let ka = fold_all a person_key in
      let kb = fold_all b person_key in if subset ka kb || subset kb ka then agree else field
  compare Policy.writers a b sa sb =
      if intersects (fold_all a person_key) (fold_all b person_key) then agree else field
  compare Policy.exact a b sa sb = exact a b
  compare Policy.union a b sa sb = agree
  compare Policy.prose a b sa sb = agree
  compare Policy.fill a b sa sb = agree
