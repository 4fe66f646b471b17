-- ===== src/Sources/Values.antt =====
-- internal/sources/fields.go: what `setValue` writes, `value` reads back.
use file_fin.Prelude.{
  ℕ, zero, suc, ◌≡◌, ◌≢◌, refl, ◌∙◌, Bool, true, false, some, List, [], ◌∷◌, if◌then◌else◌, ◌==◌,
  any, All, length, ◌≤◌, Str, str_eq, str_eq_iff, str_eq_self, Map, lookup, lookup-insert, ℤ, pos,
  negsuc, pos_part, ltb_ℤ, arith,
}
use file_fin.Strings.{
  trim_space, trim_left, trim_right, equal_fold, split, join, itoa, atoi, is_space, is_digit,
}
use file_fin.Strings.Trim.{trim_space-solid}
use file_fin.Strings.Split.{has, split-whole, split-parts}
use file_fin.Strings.Decimal.{itoa-are_digits, itoa-ne-nil, atoi-itoa}
use file_fin.Sources.Field.{
  Meta, Slot, title, year, description, actors, genres, metadata, clean, not_available, comma_space,
  text_at, split_raw, value_at, set_at,
}
use file_fin.Sources.Clean.{
  IsClean, IsEntry, clean-All, clean_of_All, clean-entries, clean-split-join, length-clean-le,
}

-- A number as it is written is an entry.
is_digit-plain :
    (s : Str)
    → All (λ c. is_digit c ≡ true) s
    → (any is_space s ≡ false) × (has b',' s ≡ false) × (has b'/' s ≡ false)
unfolding any
is_digit-plain [] h = (refl, refl, refl)
is_digit-plain (c ∷ s) h =
    let (a, b, d) = is_digit-plain s h.1 in
    let one : (is_space c ≡ false) × ((c == b',') ≡ false) × ((c == b'/') ≡ false) =
      unfold is_digit is_space in ground (arith, h.0) in
    (ground (arith, one.0), ground (arith, one.1), ground (arith, one.2))

not-available : (s : Str) → All (λ c. is_digit c ≡ true) s → equal_fold s not_available ≡ false
unfolding equal_fold not_available
not-available [] h = refl
not-available (c ∷ s) h = unfold is_digit in ground (arith, h.0)

itoa-IsEntry : (n : ℕ) → IsEntry (itoa n)
itoa-IsEntry n =
    let d = itoa-are_digits n in
    let (solid, plain, _) = is_digit-plain (itoa n) d in
    (
      (
        trim_space-solid (itoa n) solid,
        ground (arith, itoa-ne-nil n, str_eq_iff (itoa n) []),
        not-available (itoa n) d,
      ),
      plain,
    )

-- What can be written to a place and read back unchanged.
abbrev pub Storable : Slot → Bool → List Str → Type 0
Storable actors joined v = All IsClean v
Storable genres joined v = All IsClean v
Storable year joined v = (n : ℕ) × (v ≡ itoa (suc n) ∷ [])
Storable title true v = All IsEntry v × (v ≢ [])
Storable description true v = All IsEntry v × (v ≢ [])
Storable (metadata k) true v = All IsEntry v × (v ≢ [])
Storable title false v = (x : Str) × (v ≡ x ∷ []) × IsClean x
Storable description false v = (x : Str) × (v ≡ x ∷ []) × IsClean x
Storable (metadata k) false v = (x : Str) × (v ≡ x ∷ []) × IsClean x

-- The place holds what writing the value would put there.
abbrev pub Written : Meta → Slot → List Str → Type 0
Written m actors v = m.actors ≡ v
Written m genres v = m.genres ≡ v
Written m year v = m.year ≡ atoi (join comma_space v)
Written m title v = m.title ≡ join comma_space v
Written m description v = m.description ≡ join comma_space v
Written m (metadata k) v =
    (lookup k m.metadata ≡ some (join comma_space v)) × (str_eq (join comma_space v) [] ≡ false)

abbrev Text : Bool → List Str → Type 0
Text true v = All IsEntry v × (v ≢ [])
Text false v = (x : Str) × (v ≡ x ∷ []) × IsClean x

split_raw-join :
    (joined : Bool) (v : List Str) → Text joined v → split_raw joined (join comma_space v) ≡ v
unfolding split_raw
split_raw-join true [] h = absurd (h.1 refl)
split_raw-join true (x ∷ xs) h = clean-split-join x xs h.0
split_raw-join false v (x, e, c) = rw e (unfold join in clean_of_All (x ∷ []) (c, tt))

split_raw-Text :
    (joined : Bool) (raw : Str) → split_raw joined raw ≢ [] → Text joined (split_raw joined raw)
unfolding split_raw
split_raw-Text true raw ne = (clean-entries (split b',' raw) (split-parts b',' raw), ne)
split_raw-Text false raw ne =
    one (clean (raw ∷ [])) (length-clean-le (raw ∷ [])) (clean-All (raw ∷ [])) ne
  where
    one :
        (v : List Str)
        → length v ≤ 1
        → All IsClean v
        → v ≢ []
        → (x : Str) × (v ≡ x ∷ []) × IsClean x
    one [] l h n = absurd (n refl)
    one (x ∷ []) l h n = (x, refl, h.0)
    one (x ∷ y ∷ v) l h n = absurd (omega arith)

split_raw-nil : (joined : Bool) → split_raw joined [] ≡ []
unfolding split_raw clean split trim_space trim_left trim_right str_eq
split_raw-nil true = refl
split_raw-nil false = refl

split_raw-itoa : (joined : Bool) (n : ℕ) → split_raw joined (itoa n) ≡ itoa n ∷ []
unfolding split_raw
split_raw-itoa true n =
    rw (split-whole b',' (itoa n) (itoa-IsEntry n).1)
      (clean_of_All (itoa n ∷ []) ((itoa-IsEntry n).0, tt))
split_raw-itoa false n = clean_of_All (itoa n ∷ []) ((itoa-IsEntry n).0, tt)

abbrev pub year_text : ℤ → Str
year_text y = if ltb_ℤ (pos 0) y then itoa (pos_part y) else []

year_text-pos :
    (joined : Bool) (n : ℕ) → split_raw joined (year_text (pos (suc n))) ≡ itoa (suc n) ∷ []
year_text-pos joined n =
    let positive : ltb_ℤ (pos 0) (pos (suc n)) ≡ true = ground arith in
    rw positive (split_raw-itoa joined (suc n))

year_text-negsuc : (joined : Bool) (n : ℕ) → split_raw joined (year_text (negsuc n)) ≡ []
year_text-negsuc joined n =
    let negative : ltb_ℤ (pos 0) (negsuc n) ≡ false = ground arith in
    rw negative (split_raw-nil joined)

text_at-some : (m : Map Str) (k v : Str) → lookup k m ≡ some v → text_at m k ≡ v
unfolding text_at
text_at-some m k v h = rw (h, text_at) refl

pub text_at-cong : (m n : Map Str) (k : Str) → lookup k m ≡ lookup k n → text_at m k ≡ text_at n k
unfolding text_at
text_at-cong m n k h = rw (h, text_at) refl

year-Storable :
    (joined : Bool) (y : ℤ)
    → split_raw joined (year_text y) ≢ []
    → (n : ℕ) × (split_raw joined (year_text y) ≡ itoa (suc n) ∷ [])
year-Storable joined (pos zero) ne = absurd (ne (split_raw-nil joined))
year-Storable joined (pos (suc n)) ne = (n, year_text-pos joined n)
year-Storable joined (negsuc n) ne = absurd (ne (year_text-negsuc joined n))

-- A value that was read from somewhere can be written and read back.
pub value_at-Storable :
    (m : Meta) (p : Slot) (joined : Bool)
    → value_at m p joined ≢ []
    → Storable p joined (value_at m p joined)
unfolding value_at
value_at-Storable m actors joined ne = clean-All m.actors
value_at-Storable m genres joined ne = clean-All m.genres
value_at-Storable m year joined ne = year-Storable joined m.year ne
value_at-Storable m title true ne = split_raw-Text true m.title ne
value_at-Storable m title false ne = split_raw-Text false m.title ne
value_at-Storable m description true ne = split_raw-Text true m.description ne
value_at-Storable m description false ne = split_raw-Text false m.description ne
value_at-Storable m (metadata k) true ne = split_raw-Text true (text_at m.metadata k) ne
value_at-Storable m (metadata k) false ne = split_raw-Text false (text_at m.metadata k) ne

value_at-Text :
    (m : Meta) (joined : Bool) (raw : Str) (v : List Str)
    → raw ≡ join comma_space v
    → Text joined v
    → split_raw joined raw ≡ v
value_at-Text m joined raw v e h = rw e (split_raw-join joined v h)

-- The value of a place is what was written to it.
pub value_at-Written :
    (m : Meta) (p : Slot) (joined : Bool) (v : List Str)
    → Storable p joined v
    → Written m p v
    → value_at m p joined ≡ v
unfolding value_at
value_at-Written m actors joined v h w = rw w (clean_of_All v h)
value_at-Written m genres joined v h w = rw w (clean_of_All v h)
value_at-Written m year joined v (n, e) w =
    let y : m.year ≡ pos (suc n) = w ∙ rw e (unfold join in atoi-itoa (suc n)) in
    rw (y, e) (year_text-pos joined n)
value_at-Written m title true v h w = value_at-Text m true m.title v w h
value_at-Written m title false v h w = value_at-Text m false m.title v w h
value_at-Written m description true v h w = value_at-Text m true m.description v w h
value_at-Written m description false v h w = value_at-Text m false m.description v w h
value_at-Written m (metadata k) true v h w =
    value_at-Text m true (text_at m.metadata k) v
      (text_at-some m.metadata k (join comma_space v) w.0) h
value_at-Written m (metadata k) false v h w =
    value_at-Text m false (text_at m.metadata k) v
      (text_at-some m.metadata k (join comma_space v) w.0) h

-- The joined text of a value that can be stored is not empty.
join-nonempty :
    (joined : Bool) (v : List Str) → Text joined v → str_eq (join comma_space v) [] ≡ false
unfolding join
join-nonempty false v (x, e, c) = rw e c.1
join-nonempty true [] h = absurd (h.1 refl)
join-nonempty true (x ∷ []) h = h.0.0.0.1
join-nonempty true ([] ∷ y ∷ v) h = absurd (unfold str_eq in cc (h.0.0.0.1))
join-nonempty true ((c ∷ x) ∷ y ∷ v) h = unfold str_eq in refl

metadata-Written :
    (m : Meta) (k : Str) (v : List Str)
    → str_eq (join comma_space v) [] ≡ false
    → Written (set_at m (metadata k) v) (metadata k) v
unfolding set_at
metadata-Written m k v e =
    rw e (rw (lookup-insert k k (join comma_space v) m.metadata, str_eq_self k) refl, refl)

pub set_at-Written :
    (m : Meta) (p : Slot) (joined : Bool) (v : List Str)
    → Storable p joined v
    → Written (set_at m p v) p v
unfolding set_at
set_at-Written m actors joined v h = refl
set_at-Written m genres joined v h = refl
set_at-Written m year joined v h = refl
set_at-Written m title joined v h = refl
set_at-Written m description joined v h = refl
set_at-Written m (metadata k) true v h = metadata-Written m k v (join-nonempty true v h)
set_at-Written m (metadata k) false v h = metadata-Written m k v (join-nonempty false v h)
