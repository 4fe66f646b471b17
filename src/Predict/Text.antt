-- ===== src/Predict/Text.antt =====
-- internal/server/importpredict.go: where a name mentions a word, and how a marker is spelled.
use file_fin.Prelude.{
  ℕ, zero, suc, ◌+◌, Bool, true, false, not, ◌&&◌, ◌||◌, Option, none, some, [], ◌∷◌, length, take,
  drop, leb, if◌then◌else◌, Str, bytes, str_eq,
}
use file_fin.Strings.{trim_space}
use file_fin.Strings.Paths.{to_lower, has_prefix}

-- `isNameLetter` at an index, and at the index before it.
unfoldable pub is_name_letter : Str → ℕ → Bool
is_name_letter [] i = false
is_name_letter (c ∷ s) zero = (leb b'a' c && leb c b'z') || (leb b'0' c && leb c b'9')
is_name_letter (c ∷ s) (suc i) = is_name_letter s i

abbrev pub letter_before : Str → ℕ → Bool
letter_before s zero = false
letter_before s (suc i) = is_name_letter s i

abbrev pub later : Option ℕ → Option ℕ
later none = none
later (some i) = some (suc i)

-- `strings.Index`
unfoldable pub index : Str → Str → Option ℕ
index [] word = if str_eq word [] then some 0 else none
index (c ∷ s) word = if has_prefix (c ∷ s) word then some 0 else later (index s word)

-- The body of the loop of `containsWord`, on the next place of the word; `rest` is the next round.
unfoldable pub word_at : Str → Str → ℕ → (ℕ → Option Bool) → Option ℕ → Option Bool
word_at name word i rest none = some false
word_at name word i rest (some j) =
    let start = i + j in
    if not (letter_before name start) && not (is_name_letter name (start + length word))
    then some true
    else if leb (length name) (suc start)
    then some false
    else rest (suc start)

-- The loop from an index on; none when the fuel runs out.
unfoldable pub word_from : ℕ → Str → Str → ℕ → Option Bool
unfolding word_at
word_from zero name word i = none
word_from (suc f) name word i =
    word_at name word i (λ k. word_from f name word k) (index (drop i name) word)

abbrev pub answer : Option Bool → Bool
answer none = false
answer (some b) = b

unfoldable pub contains_word : Str → Str → Bool
unfolding word_from is_name_letter index
contains_word name given =
    let word = to_lower (trim_space given) in
    if str_eq word [] then false else answer (word_from (suc (length name)) name word 0)

unfoldable pub marker_value : Str → Str
marker_value marker = elim (index marker (bytes ":")) [
  | none ↦ marker
  | some i ↦ drop (suc i) marker
]

unfoldable pub as_written : Str → Str → Str
as_written name value = elim (index (to_lower name) value) [
  | none ↦ value
  | some i ↦ take (length value) (drop i name)
]
