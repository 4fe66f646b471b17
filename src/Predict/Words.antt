-- ===== src/Predict/Words.antt =====
-- internal/server/importpredict.go: `containsWord` finds exactly the whole words of a name, and its
-- loop ends.
use file_fin.Prelude.{
  leb_iff, ltb, ◌-◌, ℕ, zero, suc, ◌+◌, ◌≤◌, ◌<◌, ◌≡◌, ◌≢◌, ◌↔◌, refl, sym, ap, ◌∙◌, Bool, true,
  false, not, ◌&&◌, Option, none, some, [], ◌∷◌, length, drop, leb, Str, str_eq, Bool-cases,
  Option-cases, inl, inr, arith,
}
use native.Mathlib.Nat.{zero-add, suc-add}
use file_fin.Strings.{trim_space}
use file_fin.Strings.Paths.{to_lower, has_prefix}
use file_fin.Predict.Text.{
  is_name_letter, letter_before, later, index, word_at, word_from, answer, contains_word,
}

-- The name has the word at an index, with no letter or digit beside it.
abbrev pub stands_at : Str → Str → ℕ → Bool
stands_at name word k =
    has_prefix (drop k name) word
    && (not (letter_before name k) && not (is_name_letter name (k + length word)))

drop-drop : (i j : ℕ) (s : Str) → drop j (drop i s) ≡ drop (i + j) s
drop-drop zero j s = rw zero-add refl
drop-drop (suc i) zero [] = rw (suc-add i 0) refl
drop-drop (suc i) (suc j) [] = rw (suc-add i (suc j)) refl
drop-drop (suc i) j (c ∷ s) = rw suc-add (drop-drop i j s)

drop-end : (k : ℕ) (s : Str) → length s ≤ k → drop k s ≡ []
drop-end zero [] h = refl
drop-end (suc k) [] h = refl
drop-end zero (c ∷ s) h = absurd (omega arith)
drop-end (suc k) (c ∷ s) h = drop-end k s (omega arith)

later-some : (o : Option ℕ) (j : ℕ) → later o ≡ some j → (i : ℕ) × (o ≡ some i) × (j ≡ suc i)
later-some none j h = absurd (ground (arith, h))
later-some (some i) j h = (i, refl, ground (arith, h))

index-some : (s word : Str) (j : ℕ) → index s word ≡ some j → has_prefix (drop j s) word ≡ true
unfolding index str_eq has_prefix
index-some [] [] zero h = refl
index-some [] [] (suc j) h = refl
index-some [] (w ∷ word) j h = absurd (ground (arith, h))
index-some (c ∷ s) word j h = elim (Bool-cases (has_prefix (c ∷ s) word)) [
  | inl e ↦ let first : j ≡ 0 = ground (arith, h, e) in rw first e
  | inr e ↦
      let (i, found, next) = later-some (index s word) j (ground (arith, h, e)) in
      rw next (index-some s word i found)
]

index-first :
    (s word : Str) (j k : ℕ) → index s word ≡ some j → k < j → has_prefix (drop k s) word ≡ false
unfolding index str_eq
index-first [] [] j k h lt = absurd (ground (arith, h))
index-first [] (w ∷ word) j k h lt = absurd (ground (arith, h))
index-first (c ∷ s) word j zero h lt = elim (Bool-cases (has_prefix (c ∷ s) word)) [
  | inl e ↦ absurd (ground (arith, h, e))
  | inr e ↦ e
]
index-first (c ∷ s) word j (suc k) h lt = elim (Bool-cases (has_prefix (c ∷ s) word)) [
  | inl e ↦ absurd (ground (arith, h, e))
  | inr e ↦
      let (i, found, next) = later-some (index s word) j (ground (arith, h, e)) in
      index-first s word i k found (omega arith)
]

nil_prefix : (word : Str) → word ≢ [] → has_prefix [] word ≡ false
unfolding has_prefix
nil_prefix [] ne = absurd (ne refl)
nil_prefix (w ∷ word) ne = refl

index-none :
    (s word : Str) (k : ℕ) → word ≢ [] → index s word ≡ none → has_prefix (drop k s) word ≡ false
unfolding index
index-none [] word zero ne h = nil_prefix word ne
index-none [] word (suc k) ne h = nil_prefix word ne
index-none (c ∷ s) word zero ne h = elim (Bool-cases (has_prefix (c ∷ s) word)) [
  | inl e ↦ absurd (ground (arith, h, e))
  | inr e ↦ e
]
index-none (c ∷ s) word (suc k) ne h = elim (Option-cases (index s word)) [
  | inl gone ↦ index-none s word k ne gone
  | inr (i, found) ↦ absurd (ground (arith, h, found))
]

absent :
    (name word : Str) (i k : ℕ)
    → i ≤ k
    → has_prefix (drop (k - i) (drop i name)) word ≡ false
    → stands_at name word k ≡ false
absent name word i k h e =
    let here : i + (k - i) ≡ k = omega arith in
    let same : drop (k - i) (drop i name) ≡ drop k name =
      drop-drop i (k - i) name ∙ ap (λ (n : ℕ). drop n name) here in
    let gone : has_prefix (drop k name) word ≡ false =
      sym (ap (λ (t : Str). has_prefix t word) same) ∙ e in
    rw gone refl

-- What the loop answers from an index on: an occurrence of the whole word, or that there is none.
abbrev Answers : Str → Str → ℕ → Option Bool → Type 0
Answers name word i none = ⊥
Answers name word i (some true) = (k : ℕ) × (stands_at name word k ≡ true)
Answers name word i (some false) = (k : ℕ) → i ≤ k → stands_at name word k ≡ false

extend :
    (name word : Str) (i start : ℕ) (o : Option Bool)
    → ((k : ℕ) → i ≤ k → k ≤ start → stands_at name word k ≡ false)
    → Answers name word (suc start) o
    → Answers name word i o
extend name word i start none before a = a
extend name word i start (some true) before a = a
extend name word i start (some false) before a = λ k h. elim (Bool-cases (leb k start)) [
  | inl e ↦ before k h ((leb_iff k start).0 e)
  | inr e ↦ a k (ground (arith, e))
]

module _ (name word : Str) (ne : word ≢ []) (i j : ℕ)
    (found : index (drop i name) word ≡ some j) where
  has_word : has_prefix (drop (i + j) name) word ≡ true
  has_word =
      sym (ap (λ (t : Str). has_prefix t word) (drop-drop i j name))
      ∙ index-some (drop i name) word j found

  before_start :
      stands_at name word (i + j) ≡ false
      → (k : ℕ) → i ≤ k
      → k ≤ i + j
      → stands_at name word k ≡ false
  before_start e k h g = elim (Bool-cases (ltb k (i + j))) [
    | inl lt ↦
        absent name word i k h (index-first (drop i name) word j (k - i) found (ground (arith, lt)))
    | inr last ↦ let same : k ≡ i + j = ground (arith, last) in rw same e
  ]

past_end :
    (name word : Str) (start : ℕ)
    → word ≢ []
    → length name ≤ suc start
    → Answers name word (suc start) (some false)
past_end name word start ne h = λ k g.
    let gone : has_prefix (drop k name) word ≡ false =
      rw (drop-end k name (omega arith)) (nil_prefix word ne) in
    rw gone refl

abbrev bounded : Str → Str → ℕ → Bool
bounded name word start =
    not (letter_before name start) && not (is_name_letter name (start + length word))

word_from-Answers :
    (f : ℕ) (name word : Str) (i : ℕ)
    → word ≢ []
    → length name < i + f
    → i ≤ length name
    → Answers name word i (word_from f name word i)
unfolding word_from word_at
word_from-Answers zero name word i ne h g = absurd (omega arith)
word_from-Answers (suc f) name word i ne h g = elim (Option-cases (index (drop i name) word)) [
  | inl gone ↦
      rw gone (λ k g. absent name word i k g (index-none (drop i name) word (k - i) ne gone))
  | inr (j, found) ↦ elim (Bool-cases (bounded name word (i + j))) [
    | inl free ↦ rw (found, free) (i + j, rw (has_word name word ne i j found, free) refl)
    | inr stuck ↦
        let here : stands_at name word (i + j) ≡ false =
          rw (has_word name word ne i j found, stuck) refl in
        elim (Bool-cases (leb (length name) (suc (i + j)))) [
          | inl e ↦
              rw (found, stuck, e)
                (extend name word i (i + j) (some false) (before_start name word ne i j found here)
                  (past_end name word (i + j) ne ((leb_iff _ _).0 e)))
          | inr e ↦
              rw (found, stuck, e)
                (extend name word i (i + j) (word_from f name word (suc (i + j)))
                  (before_start name word ne i j found here)
                  (word_from-Answers f name word (suc (i + j)) ne (omega arith)
                    (ground (arith, e))))
        ]
  ]
]

-- The loop ends within its fuel, one more round than the name has characters.
pub word_from-answers :
    (name word : Str)
    → word ≢ []
    → (b : Bool) × (word_from (suc (length name)) name word 0 ≡ some b)
word_from-answers name word ne =
    some_answer (word_from (suc (length name)) name word 0)
      (word_from-Answers (suc (length name)) name word 0 ne (omega arith) (omega arith))
  where
    some_answer : (o : Option Bool) → Answers name word 0 o → (b : Bool) × (o ≡ some b)
    some_answer none a = absurd a
    some_answer (some b) a = (b, refl)

nonempty : (s : Str) → s ≢ [] → str_eq s [] ≡ false
unfolding str_eq
nonempty [] ne = absurd (ne refl)
nonempty (c ∷ s) ne = refl

abbrev Mentions : Str → Str → Type 0
Mentions name word = (k : ℕ) × (stands_at name word k ≡ true)

answer_sound :
    (name word : Str) (o : Option Bool)
    → Answers name word 0 o
    → (answer o ≡ true) ↔ Mentions name word
answer_sound name word none a = absurd a
answer_sound name word (some true) a = (λ e. a, λ m. refl)
answer_sound name word (some false) a =
    (λ e. cc, λ m. absurd (ground (arith, a m.0 (omega arith), m.1)))

-- A word that is not blank counts as mentioned exactly when it stands somewhere in the name, in lower
-- case, with no letter or digit on either side, also where its places overlap.
pub contains_word-Mentions :
    (name given : Str)
    → to_lower (trim_space given) ≢ []
    → (contains_word name given ≡ true) ↔ Mentions name (to_lower (trim_space given))
unfolding contains_word
contains_word-Mentions name given ne =
    let word = to_lower (trim_space given) in
    let solid : str_eq word [] ≡ false = nonempty word ne in
    rw solid (
      answer_sound name word (word_from (suc (length name)) name word 0)
        (word_from-Answers (suc (length name)) name word 0 ne (omega arith) (omega arith)))
