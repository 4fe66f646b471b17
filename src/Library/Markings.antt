-- ===== src/Library/Markings.antt =====
-- internal/library/library.go: the markers that a category declares or has learned.
use file_fin.Prelude.{
  ℕ, ◌+◌, Bool, true, false, not, ◌&&◌, ◌||◌, List, [], ◌∷◌, length, take, ltb, leb, ◌==◌,
  if◌then◌else◌, Str, bytes, str_eq, contains, Map, insert,
}
use file_fin.Strings.{trim_space, str_lt}
use file_fin.Strings.Paths.{to_lower}

abbrev pub kind_films : Str
kind_films = bytes "films"

abbrev pub kind_shows : Str
kind_shows = bytes "shows"

abbrev pub max_learned : ℕ
max_learned = 50

-- The counts of learned markers are not negative.
pub record Markers : Type 0 where
  pub kind : Str
  pub languages : List Str
  pub countries : List Str
  pub keywords : List Str
  pub learned : Map ℕ

abbrev pub no_markers : Markers
no_markers = record { kind = []; languages = []; countries = []; keywords = []; learned = [] }

unfoldable pub accepts : Markers → Bool → Bool
accepts m is_show =
    if str_eq m.kind kind_films
    then not is_show
    else if str_eq m.kind kind_shows
    then is_show
    else true

abbrev nil_list : List Str → Bool
nil_list [] = true
nil_list (x ∷ xs) = false

unfoldable pub is_empty_markers : Markers → Bool
is_empty_markers m =
    str_eq m.kind []
    && nil_list m.languages
    && nil_list m.countries
    && nil_list m.keywords
    && length m.learned == 0

clean_from : List Str → List Str → List Str
clean_from seen [] = []
clean_from seen (s ∷ rest) =
    let t = trim_space s in
    let key = to_lower t in
    let skipped = clean_from seen rest in
    let kept = t ∷ clean_from (key ∷ seen) rest in
    if str_eq t [] || contains seen key then skipped else kept

unfoldable pub clean_list : List Str → List Str
unfolding clean_from
clean_list items = clean_from [] items

-- The order of `sort.Slice`: more sightings first, then by name.
unfoldable pub stronger : Str × ℕ → Str × ℕ → Bool
stronger (j, n) (k, m) = ltb m n || (n == m && str_lt j k)

unfoldable pub insert_entry : Str × ℕ → Map ℕ → Map ℕ
insert_entry e [] = e ∷ []
insert_entry e (f ∷ m) = if stronger f e then f ∷ insert_entry e m else e ∷ f ∷ m

unfoldable pub sort_entries : Map ℕ → Map ℕ
unfolding insert_entry stronger
sort_entries [] = []
sort_entries (e ∷ m) = insert_entry e (sort_entries m)

unfoldable pub cap_learned : Map ℕ → Map ℕ
unfolding sort_entries
cap_learned learned =
    if leb (length learned) max_learned then learned else take max_learned (sort_entries learned)

-- The loop over the learned markers in `clean`.
pub clean_counts : Map ℕ → Map ℕ → Map ℕ
clean_counts out [] = out
clean_counts out ((k, n) ∷ m) =
    let key = trim_space k in
    clean_counts (if not (str_eq key []) && ltb 0 n then insert key n out else out) m

unfoldable pub clean : Markers → Markers
unfolding clean_list clean_counts cap_learned
clean m = record {
  kind = if str_eq m.kind kind_films || str_eq m.kind kind_shows then m.kind else [];
  languages = clean_list m.languages;
  countries = clean_list m.countries;
  keywords = clean_list m.keywords;
  learned = cap_learned (clean_counts [] m.learned);
}

-- `m.Learned[k]++`
unfoldable pub count_up : Str → Map ℕ → Map ℕ
count_up k [] = (k, 1) ∷ []
count_up k ((j, n) ∷ m) = if str_eq j k then (j, n + 1) ∷ m else (j, n) ∷ count_up k m

unfoldable pub learn_all : List Str → Map ℕ → Map ℕ
unfolding count_up
learn_all [] m = m
learn_all (k ∷ ks) m =
    let key = trim_space k in learn_all ks (if str_eq key [] then m else count_up key m)

-- What one import does to the learned markers of its category.
unfoldable pub learn_markers : Map ℕ → List Str → Map ℕ
unfolding learn_all cap_learned
learn_markers m ks = cap_learned (learn_all ks m)
