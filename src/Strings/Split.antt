-- ===== src/Strings/Split.antt =====
-- Splitting at a separator undoes joining with it.
use file_fin.Prelude.{
  ℕ, Bool, false, ◌≡◌, ◌≢◌, refl, List, [], ◌∷◌, ◌++◌, Str, Bool-cases, inl, inr, any, All, ◌==◌,
  ==_iff, arith,
}
use file_fin.Strings.{split, prepend, trim_left, trim_right, trim_space}

abbrev pub has : ℕ → Str → Bool
has sep s = any (λ c. c == sep) s

pub split-ne-nil : (sep : ℕ) (s : Str) → split sep s ≢ []
unfolding split
split-ne-nil sep [] e = cc
split-ne-nil sep (c ∷ s) e = ground (arith, e)

pub split-append :
    (sep : ℕ) (x s : Str) → has sep x ≡ false → split sep (x ++ sep ∷ s) ≡ x ∷ split sep s
unfolding split any
split-append sep [] s h = ground (arith, ==_iff sep sep)
split-append sep (c ∷ x) s h = ground (arith, split-append sep x s)

pub split-whole : (sep : ℕ) (x : Str) → has sep x ≡ false → split sep x ≡ x ∷ []
unfolding split any
split-whole sep [] h = refl
split-whole sep (c ∷ x) h = ground (arith, split-whole sep x)

prepend-parts :
    (sep c : ℕ) (xs : List Str)
    → (c == sep) ≡ false
    → All (λ x. has sep x ≡ false) xs
    → All (λ x. has sep x ≡ false) (prepend c xs)
unfolding any
prepend-parts sep c [] e h = (ground arith, tt)
prepend-parts sep c (x ∷ xs) e h = (ground (arith, h.0), h.1)

-- No part of a split holds the separator.
pub split-parts : (sep : ℕ) (s : Str) → All (λ x. has sep x ≡ false) (split sep s)
unfolding split any
split-parts sep [] = (refl, tt)
split-parts sep (c ∷ s) = elim (Bool-cases (c == sep)) [
  | inl e ↦ rw e (refl, split-parts sep s)
  | inr e ↦ rw e (prepend-parts sep c (split sep s) e (split-parts sep s))
]

has-trim_left : (sep : ℕ) (s : Str) → has sep s ≡ false → has sep (trim_left s) ≡ false
unfolding trim_left any
has-trim_left sep [] h = refl
has-trim_left sep (c ∷ s) h = ground (arith, has-trim_left sep s)

has-trim_right : (sep : ℕ) (s : Str) → has sep s ≡ false → has sep (trim_right s) ≡ false
unfolding trim_right any
has-trim_right sep [] h = refl
has-trim_right sep (c ∷ s) h = ground (arith, has-trim_right sep s)

pub has-trim_space : (sep : ℕ) (s : Str) → has sep s ≡ false → has sep (trim_space s) ≡ false
unfolding trim_space
has-trim_space sep s h = has-trim_right sep (trim_left s) (has-trim_left sep s h)
