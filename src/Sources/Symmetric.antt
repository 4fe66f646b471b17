-- ===== src/Sources/Symmetric.antt =====
-- internal/sources/compare.go: the order in which two sources are compared does not matter.
use file_fin.Prelude.{
  ℕ, suc, ◌≤◌, ◌≡◌, refl, sym, inl, inr, max, Bool, true, false, ◌||◌, Bool-cases, List, [], ◌∷◌,
  if◌then◌else◌, length, contains, Unique, Str, str_eq, str_eq_iff, arith,
}
use file_fin.Strings.{join}
use file_fin.Sources.Field.{Policy, Snapshot}
use file_fin.Sources.Compare.{
  Unicode, subset, same_set, intersects, add_key, fold_all, same_values, compare, exact, distance,
  first_int, space, compare_titles, compare_runtimes, compare_releases, name_key, title_keys,
  person_key, fold,
}

-- A list without the first place of a string.
drop_key : Str → List Str → List Str
drop_key k [] = []
drop_key k (x ∷ xs) = if str_eq x k then xs else x ∷ drop_key k xs

length-drop_key :
    (k : Str) (xs : List Str) → contains xs k ≡ true → length xs ≡ suc (length (drop_key k xs))
unfolding contains drop_key
length-drop_key k [] h = cc
length-drop_key k (x ∷ xs) h = ground (arith, length-drop_key k xs)

contains-drop_key :
    (k j : Str) (xs : List Str)
    → str_eq k j ≡ false
    → contains xs j ≡ true
    → contains (drop_key k xs) j ≡ true
unfolding contains drop_key
contains-drop_key k j [] n h = h
contains-drop_key k j (x ∷ xs) n h =
    ground (arith, str_eq_iff x k, str_eq_iff x j, str_eq_iff k j, contains-drop_key k j xs)

subset-drop_key :
    (k : Str) (a b : List Str)
    → contains a k ≡ false
    → subset a b ≡ true
    → subset a (drop_key k b) ≡ true
unfolding contains subset
subset-drop_key k [] b n h = refl
subset-drop_key k (x ∷ a) b n h =
    ground (arith, str_eq_iff x k, str_eq_iff k x, contains-drop_key k x b, subset-drop_key k a b)

length-subset-le : (a b : List Str) → Unique a → subset a b ≡ true → length a ≤ length b
unfolding subset
length-subset-le [] b u h = omega arith
length-subset-le (x ∷ a) b u h =
    ground (arith, length-drop_key x b, subset-drop_key x a b, length-subset-le a (drop_key x b))

-- Two sets of one size: if the first is part of the second, so is the second of the first.
subset_back :
    (a b : List Str)
    → Unique a
    → length a ≡ length b
    → subset a b ≡ true
    → (k : Str) → contains b k ≡ true
    → contains a k ≡ true
unfolding subset
subset_back a b u e h k m = elim (Bool-cases (contains a k)) [
  | inl y ↦ y
  | inr n ↦ absurd (ground (arith, length-subset-le (k ∷ a) b (n, u) (rw (m, h) refl)))
]

subset_of_contains :
    (b a : List Str) → ((k : Str) → contains b k ≡ true → contains a k ≡ true) → subset b a ≡ true
unfolding subset contains
subset_of_contains [] a f = refl
subset_of_contains (k ∷ b) a f =
    rw
      (
        f k (ground (arith, str_eq_iff k k)),
        subset_of_contains b a (λ j m. f j (ground (arith, m))),
      )
      refl

add_key-Unique : (k : Str) (ks : List Str) → Unique ks → Unique (add_key k ks)
unfolding add_key
add_key-Unique k ks u = ground arith

fold_all-Unique : (vs : List Str) (key : Str → Str) → Unique (fold_all vs key)
unfolding fold_all
fold_all-Unique [] key = tt
fold_all-Unique (v ∷ vs) key =
    ground (arith, fold_all-Unique vs key, add_key-Unique (key v) (fold_all vs key))

same_set-true : (a b : List Str) → Unique a → same_set a b ≡ true → same_set b a ≡ true
unfolding same_set
same_set-true a b u h =
    let back =
      subset_of_contains b a (λ k m. subset_back a b u (ground arith) (ground arith) k m) in
    ground (arith, back)

Bool-antisym : (x y : Bool) → (x ≡ true → y ≡ true) → (y ≡ true → x ≡ true) → x ≡ y
Bool-antisym true y f g = sym (f refl)
Bool-antisym false true f g = g refl
Bool-antisym false false f g = refl

same_set_comm : (a b : List Str) → Unique a → Unique b → same_set a b ≡ same_set b a
same_set_comm a b u w =
    Bool-antisym (same_set a b) (same_set b a) (same_set-true a b u) (same_set-true b a w)

str_eq_comm : (a b : Str) → str_eq a b ≡ str_eq b a
str_eq_comm a b = ground (arith, str_eq_iff a b, str_eq_iff b a)

contains-intersects :
    (a b : List Str) (k : Str) → contains a k ≡ true → contains b k ≡ true → intersects a b ≡ true
unfolding contains intersects
contains-intersects [] b k h m = cc
contains-intersects (x ∷ a) b k h m = ground (arith, str_eq_iff x k, contains-intersects a b k)

intersects-cons :
    (b : List Str) (x : Str) (a : List Str) → intersects b a ≡ true → intersects b (x ∷ a) ≡ true
unfolding intersects contains
intersects-cons [] x a h = h
intersects-cons (y ∷ b) x a h = ground (arith, intersects-cons b x a)

contains_head : (x : Str) (a : List Str) → contains (x ∷ a) x ≡ true
unfolding contains
contains_head x a = ground (arith, str_eq_iff x x)

intersects-true : (a b : List Str) → intersects a b ≡ true → intersects b a ≡ true
unfolding intersects
intersects-true [] b h = cc
intersects-true (x ∷ a) b h = elim (Bool-cases (contains b x)) [
  | inl m ↦ contains-intersects b (x ∷ a) x m (contains_head x a)
  | inr n ↦ intersects-cons b x a (intersects-true a b (ground (arith, n)))
]

intersects_comm : (a b : List Str) → intersects a b ≡ intersects b a
intersects_comm a b =
    Bool-antisym (intersects a b) (intersects b a) (intersects-true a b) (intersects-true b a)

||_comm : (x y : Bool) → (x || y) ≡ (y || x)
||_comm x y = ground arith

distance_comm : (a b : ℕ) → distance a b ≡ distance b a
distance_comm a b = omega arith

max_comm : (a b : ℕ) → max a b ≡ max b a
max_comm a b = omega arith

module _ (uni : Unicode) where
  same_values_comm :
      (a b : List Str) (list : Bool) → same_values uni a b list ≡ same_values uni b a list
  unfolding same_values
  same_values_comm a b true =
      same_set_comm (fold_all a (fold uni)) (fold_all b (fold uni)) (fold_all-Unique a (fold uni))
        (fold_all-Unique b (fold uni))
  same_values_comm a b false = str_eq_comm (fold uni _) (fold uni _)

  exact_comm : (a b : List Str) → exact uni a b ≡ exact uni b a
  unfolding exact
  exact_comm a b = rw (same_values_comm a b false) refl

  compare_titles_comm :
      (a b : List Str) (sa sb : Snapshot)
      → compare_titles uni a b sa sb ≡ compare_titles uni b a sb sa
  unfolding compare_titles
  compare_titles_comm a b sa sb =
      let na = name_key uni (join space a) in
      let nb = name_key uni (join space b) in
      rw
        (
          str_eq_comm na nb,
          ||_comm (contains (title_keys uni sb) na) (contains (title_keys uni sa) nb),
        )
        refl

  compare_runtimes_comm : (a b : List Str) → compare_runtimes uni a b ≡ compare_runtimes uni b a
  unfolding compare_runtimes
  compare_runtimes_comm a b = ground (
    arith,
    exact_comm a b,
    distance_comm (first_int a) (first_int b),
    max_comm (first_int a) (first_int b),
  )

  compare_releases_comm : (a b : List Str) → compare_releases uni a b ≡ compare_releases uni b a
  unfolding compare_releases
  compare_releases_comm a b = ground (arith, exact_comm a b)

  -- Whatever the field, two sources are in the same class of conflict in either order.
  pub compare_comm :
      (p : Policy) (a b : List Str) (sa sb : Snapshot)
      → compare uni p a b sa sb ≡ compare uni p b a sb sa
  unfolding compare
  compare_comm Policy.title a b sa sb = compare_titles_comm a b sa sb
  compare_comm Policy.year a b sa sb = rw (distance_comm (first_int a) (first_int b)) refl
  compare_comm Policy.kind a b sa sb = rw (same_values_comm a b false) refl
  compare_comm Policy.id a b sa sb = rw (same_values_comm a b false) refl
  compare_comm Policy.runtime a b sa sb = compare_runtimes_comm a b
  compare_comm Policy.release a b sa sb = compare_releases_comm a b
  compare_comm Policy.directors a b sa sb =
      rw
        (||_comm (subset (fold_all a (person_key uni)) (fold_all b (person_key uni)))
          (subset (fold_all b (person_key uni)) (fold_all a (person_key uni))))
        refl
  compare_comm Policy.writers a b sa sb =
      rw (intersects_comm (fold_all a (person_key uni)) (fold_all b (person_key uni))) refl
  compare_comm Policy.exact a b sa sb = exact_comm a b
  compare_comm Policy.union a b sa sb = refl
  compare_comm Policy.prose a b sa sb = refl
  compare_comm Policy.fill a b sa sb = refl
