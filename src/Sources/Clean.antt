-- ===== src/Sources/Clean.antt =====
-- internal/sources/fields.go: what `clean` lets through, and lists joined with commas.
use file_fin.Prelude.{
  ◌≡◌, ◌≢◌, refl, ap, ◌∙◌, inl, inr, false, not, ◌&&◌, Bool-cases, List, [], ◌∷◌, All, length, ◌≤◌,
  Str, str_eq, arith,
}
use file_fin.Strings.{trim_space, equal_fold, split, join, prepend}
use file_fin.Strings.Trim.{trim_space_self, trim_space-space}
use file_fin.Strings.Split.{has, split-ne-nil, split-append, split-whole, has-trim_space}
use file_fin.Sources.Field.{clean, not_available, comma_space}

-- What `clean` lets through: trimmed, not empty, not "N/A".
abbrev pub IsClean : Str → Type 0
IsClean v = (trim_space v ≡ v) × (str_eq v [] ≡ false) × (equal_fold v not_available ≡ false)

-- An entry that survives a list joined with commas.
abbrev pub IsEntry : Str → Type 0
IsEntry v = IsClean v × (has b',' v ≡ false)

clean_one : (v : Str) (vs : List Str) → IsClean v → clean (v ∷ vs) ≡ v ∷ clean vs
unfolding clean
clean_one v vs (t, n, a) = rw (t, n, a) refl

pub clean-All : (vs : List Str) → All IsClean (clean vs)
unfolding clean
clean-All [] = tt
clean-All (v ∷ vs) =
    elim (Bool-cases
      (not (str_eq (trim_space v) []) && not (equal_fold (trim_space v) not_available))) [
        | inl e ↦ rw e ((trim_space_self v, ground arith, ground arith), clean-All vs)
        | inr e ↦ rw e (clean-All vs)
      ]

pub length-clean-le : (vs : List Str) → length (clean vs) ≤ length vs
unfolding clean
length-clean-le [] = omega arith
length-clean-le (v ∷ vs) = ground (arith, length-clean-le vs)

pub clean_of_All : (vs : List Str) → All IsClean vs → clean vs ≡ vs
clean_of_All [] h = unfold clean in refl
clean_of_All (v ∷ vs) h = clean_one v vs h.0 ∙ ap (◌∷◌ v) (clean_of_All vs h.1)

pub clean-entries : (vs : List Str) → All (λ v. has b',' v ≡ false) vs → All IsEntry (clean vs)
unfolding clean
clean-entries [] h = tt
clean-entries (v ∷ vs) h =
    elim (Bool-cases
      (not (str_eq (trim_space v) []) && not (equal_fold (trim_space v) not_available))) [
        | inl e ↦ rw e (
          ((trim_space_self v, ground arith, ground arith), has-trim_space b',' v h.0),
          clean-entries vs h.1,
        )
        | inr e ↦ rw e (clean-entries vs h.1)
      ]

-- A leading space of an entry is trimmed away.
clean-space : (v : Str) (vs : List Str) → clean ((b' ' ∷ v) ∷ vs) ≡ clean (v ∷ vs)
unfolding clean
clean-space v vs = rw (trim_space-space v) refl

clean-prepend : (xs : List Str) → xs ≢ [] → clean (prepend b' ' xs) ≡ clean xs
clean-prepend [] ne = absurd (ne refl)
clean-prepend (v ∷ vs) ne = clean-space v vs

split_space : (s : Str) → clean (split b',' (b' ' ∷ s)) ≡ clean (split b',' s)
unfolding split
split_space s = clean-prepend (split b',' s) (split-ne-nil b',' s)

pub clean-split-join :
    (v : Str) (vs : List Str)
    → All IsEntry (v ∷ vs)
    → clean (split b',' (join comma_space (v ∷ vs))) ≡ v ∷ vs
unfolding join comma_space
clean-split-join v [] h = rw (split-whole b',' v h.0.1) (clean_of_All (v ∷ []) (h.0.0, tt))
clean-split-join v (w ∷ vs) h =
    rw
      (
        split-append b',' v (b' ' ∷ join comma_space (w ∷ vs)) h.0.1,
        clean_one v (split b',' (b' ' ∷ join comma_space (w ∷ vs))) h.0.0,
        split_space (join comma_space (w ∷ vs)),
        clean-split-join w vs h.1,
      )
      refl
