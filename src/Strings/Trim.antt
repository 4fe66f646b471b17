-- ===== src/Strings/Trim.antt =====
-- `strings.TrimSpace` is idempotent, and ignores a leading space.
use file_fin.Prelude.{
  false, ◌≡◌, refl, [], ◌∷◌, Str, Bool-cases, inl, inr, any, length, ap, ◌≤◌, arith,
}
use file_fin.Strings.{is_space, trim_left, trim_right, trim_space}

trim_right_self : (s : Str) → trim_right (trim_right s) ≡ trim_right s
unfolding trim_right
trim_right_self [] = refl
trim_right_self (c ∷ s) = ground (arith, trim_right_self s)

length-trim_left-le : (s : Str) → length (trim_left s) ≤ length s
unfolding trim_left
length-trim_left-le [] = omega arith
length-trim_left-le (c ∷ s) = ground (arith, length-trim_left-le s)

trim_left-trim_right : (s : Str) → trim_left s ≡ s → trim_left (trim_right s) ≡ trim_right s
unfolding trim_left trim_right
trim_left-trim_right [] e = refl
trim_left-trim_right (c ∷ s) e = elim (Bool-cases (is_space c)) [
  | inl space ↦ absurd (ground (arith, space, ap length e, length-trim_left-le s))
  | inr solid ↦ ground (arith, solid)
]

trim_left_self : (s : Str) → trim_left (trim_left s) ≡ trim_left s
unfolding trim_left
trim_left_self [] = refl
trim_left_self (c ∷ s) = ground (arith, trim_left_self s)

pub trim_space_self : (s : Str) → trim_space (trim_space s) ≡ trim_space s
unfolding trim_space
trim_space_self s =
    rw (trim_left-trim_right (trim_left s) (trim_left_self s)) (trim_right_self (trim_left s))

pub trim_space-space : (s : Str) → trim_space (b' ' ∷ s) ≡ trim_space s
unfolding trim_space trim_left is_space
trim_space-space s = refl

trim_right-solid : (s : Str) → any is_space s ≡ false → trim_right s ≡ s
unfolding trim_right any
trim_right-solid [] h = refl
trim_right-solid (c ∷ s) h = ground (arith, trim_right-solid s)

trim_left-solid : (s : Str) → any is_space s ≡ false → trim_left s ≡ s
unfolding trim_left any
trim_left-solid [] h = refl
trim_left-solid (c ∷ s) h = ground arith

-- A text without white space is its own trim.
pub trim_space-solid : (s : Str) → any is_space s ≡ false → trim_space s ≡ s
unfolding trim_space
trim_space-solid s h = rw (trim_left-solid s h) (trim_right-solid s h)
