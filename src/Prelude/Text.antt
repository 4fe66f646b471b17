-- ===== src/Prelude/Text.antt =====
-- Go strings, as sequences of code points: the program's texts are UTF-8, which has one spelling for
-- each such sequence and sorts like it.
use Prim.Native.Nat.{ℕ, zero, suc}
use Prim.Native.Char.{code}
use Prim.Native.String.{String}
use mathlib.Core.Path.{◌≡◌, refl}
use mathlib.Core.Logic.{◌↔◌}
use mathlib.Core.Bool.{Bool, true, false, ◌&&◌, ◌||◌}
use mathlib.Core.List.{List, [], ◌∷◌}
use mathlib.Core.Option.{some}
use native.Mathlib.Omega.{arith}
use file_fin.Prelude.Lists.{get_elem?}
use file_fin.Prelude.Tests.{◌==◌}

abbrev pub Str : Type 0
Str = List ℕ

-- The code points of a text.
abbrev pub bytes : String → Str
bytes String.[] = []
bytes (String.◌∷◌ c s) = code c ∷ bytes s

-- `a == b` on Go strings.
unfoldable pub str_eq : Str → Str → Bool
str_eq [] [] = true
str_eq (a ∷ x) (b ∷ y) = a == b && str_eq x y
str_eq _ _ = false

str_eq_sound : (x y : Str) → str_eq x y ≡ true → x ≡ y
unfolding str_eq
str_eq_sound [] [] h = refl
str_eq_sound (a ∷ x) (b ∷ y) h = ground (arith, str_eq_sound x y)
str_eq_sound [] (b ∷ y) h = ground arith
str_eq_sound (a ∷ x) [] h = ground arith

pub str_eq_self : (x : Str) → str_eq x x ≡ true
unfolding str_eq
str_eq_self [] = refl
str_eq_self (a ∷ x) = ground (arith, str_eq_self x)

pub str_eq_iff : (x y : Str) → (str_eq x y ≡ true) ↔ (x ≡ y)
str_eq_iff x y = (str_eq_sound x y, λ e. subst_self e)
  where
    subst_self : x ≡ y → str_eq x y ≡ true
    subst_self e = rw (← e) (str_eq_self x)

-- The loops that look a string up in a slice (`contains`, `slices.Contains`).
unfoldable pub contains : List Str → Str → Bool
contains [] v = false
contains (x ∷ xs) v = str_eq x v || contains xs v

-- No string stands twice.
abbrev pub Unique : List Str → Type 0
Unique [] = Unit
Unique (x ∷ xs) = (contains xs x ≡ false) × Unique xs

pub contains-get_elem? :
    (xs : List Str) (i : ℕ) (v : Str) → get_elem? xs i ≡ some v → contains xs v ≡ true
unfolding contains
contains-get_elem? [] i v h = cc
contains-get_elem? (x ∷ xs) zero v h = ground (arith, str_eq_iff x v)
contains-get_elem? (x ∷ xs) (suc i) v h = ground (arith, contains-get_elem? xs i v)
