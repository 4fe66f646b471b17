-- ===== src/Prelude/Assoc.antt =====
-- Go maps with string keys, as association lists. A range over a Go map has no fixed order;
-- results that could depend on it are stated for every order where they stand.
use Prim.Native.Nat.{◌≤◌}
use mathlib.Core.Path.{◌≡◌, refl}
use mathlib.Core.Bool.{Bool}
use mathlib.Core.List.{List, [], ◌∷◌}
use mathlib.Core.Option.{Option, none, some}
use native.Mathlib.Omega.{arith}
use file_fin.Prelude.Lists.{length}
use file_fin.Prelude.Tests.{if◌then◌else◌}
use file_fin.Prelude.Text.{Str, str_eq, str_eq_iff}

abbrev pub Map {ℓ} : Type ℓ → Type ℓ
Map V = List (Str × V)

module _ {ℓ} {V : Type ℓ} where
  unfoldable pub lookup : Str → Map V → Option V
  lookup k [] = none
  lookup k ((j, v) ∷ m) = if str_eq j k then some v else lookup k m

  abbrev pub keys : Map V → List Str
  keys [] = []
  keys ((k, v) ∷ m) = k ∷ keys m

  -- `m[k] = v`
  unfoldable pub insert : Str → V → Map V → Map V
  insert k v [] = (k, v) ∷ []
  insert k v ((j, w) ∷ m) = if str_eq j k then (k, v) ∷ m else (j, w) ∷ insert k v m

  -- `delete(m, k)`
  unfoldable pub delete : Str → Map V → Map V
  delete k [] = []
  delete k ((j, w) ∷ m) = if str_eq j k then delete k m else (j, w) ∷ delete k m

  -- `for k, v := range m { if drop(v) { delete(m, k) } }`
  unfoldable pub sweep : (V → Bool) → Map V → Map V
  sweep drop [] = []
  sweep drop ((j, w) ∷ m) = if drop w then sweep drop m else (j, w) ∷ sweep drop m

  -- No key stands twice, as in every Go map.
  abbrev pub Distinct : Map V → Type ℓ
  Distinct [] = Unit
  Distinct ((k, v) ∷ m) = (lookup k m ≡ none) × Distinct m

  pub lookup-insert :
      (k j : Str) (v : V) (m : Map V)
      → lookup j (insert k v m) ≡ (if str_eq k j then some v else lookup j m)
  unfolding lookup insert
  lookup-insert k j v [] = refl
  lookup-insert k j v ((i, w) ∷ m) =
      ground (arith, str_eq_iff k j, str_eq_iff i k, str_eq_iff i j, lookup-insert k j v m)

  pub lookup-delete :
      (k j : Str) (m : Map V) → lookup j (delete k m) ≡ (if str_eq k j then none else lookup j m)
  unfolding lookup delete
  lookup-delete k j [] = ground arith
  lookup-delete k j ((i, w) ∷ m) =
      ground (arith, str_eq_iff k j, str_eq_iff i k, str_eq_iff i j, lookup-delete k j m)

  lookup-sweep-none :
      (drop : V → Bool) (k : Str) (m : Map V) → lookup k m ≡ none → lookup k (sweep drop m) ≡ none
  unfolding lookup sweep
  lookup-sweep-none drop k [] h = refl
  lookup-sweep-none drop k ((i, w) ∷ m) h = ground (arith, lookup-sweep-none drop k m)

  -- What is left of an entry when those that meet a test are dropped.
  abbrev pub unless_dropped : (V → Bool) → Option V → Option V
  unless_dropped drop none = none
  unless_dropped drop (some v) = if drop v then none else some v

  pub lookup-sweep :
      (drop : V → Bool) (k : Str) (m : Map V)
      → Distinct m
      → lookup k (sweep drop m) ≡ unless_dropped drop (lookup k m)
  unfolding lookup sweep
  lookup-sweep drop k [] d = refl
  lookup-sweep drop k ((i, w) ∷ m) d =
      ground (arith, str_eq_iff i k, lookup-sweep drop k m, lookup-sweep-none drop k m)

  pub sweep-Distinct : (drop : V → Bool) (m : Map V) → Distinct m → Distinct (sweep drop m)
  unfolding sweep
  sweep-Distinct drop [] d = tt
  sweep-Distinct drop ((i, w) ∷ m) d =
      ground (arith, sweep-Distinct drop m, lookup-sweep-none drop i m)

  pub insert-Distinct : (k : Str) (v : V) (m : Map V) → Distinct m → Distinct (insert k v m)
  unfolding insert lookup
  insert-Distinct k v [] d = (refl, tt)
  insert-Distinct k v ((i, w) ∷ m) d =
      ground (arith, str_eq_iff i k, str_eq_iff k i, insert-Distinct k v m, lookup-insert k i v m)

  pub delete-Distinct : (k : Str) (m : Map V) → Distinct m → Distinct (delete k m)
  unfolding delete
  delete-Distinct k [] d = tt
  delete-Distinct k ((i, w) ∷ m) d = ground (arith, delete-Distinct k m, lookup-delete k i m)

  pub length-sweep-le : (drop : V → Bool) (m : Map V) → length (sweep drop m) ≤ length m
  unfolding sweep
  length-sweep-le drop [] = omega arith
  length-sweep-le drop ((i, w) ∷ m) = ground (arith, length-sweep-le drop m)
