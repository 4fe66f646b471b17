-- ===== src/Library/Learning.antt =====
-- internal/library/library.go: what `Learn` keeps when a category already keeps as many markers as it
-- may.
use file_fin.Prelude.{
  ℕ, ◌≤◌, ◌≡◌, refl, true, false, none, List, [], ◌∷◌, Str, str_eq, str_eq_iff, contains, Map,
  lookup, map, length, take, All, leb, Bool-cases, inl, inr, arith, leb_iff,
}
use file_fin.Strings.{trim_space}
use file_fin.Library.Capped.{
  established, Unseen, Weak, sort_entries-Descends, established-sort_entries, sort_entries-Weak,
  take-Weak, take-Established, Established-all, Unseen-Established,
}
use file_fin.Library.Markings.{
  max_learned, sort_entries, cap_learned, count_up, learn_all, learn_markers,
}

Unseen-Weak : (k : Str) (m : Map ℕ) → Unseen k m → Weak k m
Unseen-Weak k [] u = tt
Unseen-Weak k ((j, n) ∷ m) u = (ground (arith, u.0), Unseen-Weak k m u.1)

Unseen-lookup : (k : Str) (m : Map ℕ) → Unseen k m → lookup k m ≡ none
unfolding lookup
Unseen-lookup k [] u = refl
Unseen-lookup k ((j, n) ∷ m) u = rw u.0 (Unseen-lookup k m u.1)

lookup-Unseen : (k : Str) (m : Map ℕ) → lookup k m ≡ none → Unseen k m
unfolding lookup
lookup-Unseen k [] h = tt
lookup-Unseen k ((j, n) ∷ m) h = elim (Bool-cases (str_eq j k)) [
  | inl e ↦ absurd (ground (arith, e))
  | inr e ↦ (e, lookup-Unseen k m (ground (arith, e)))
]

established-count_up : (k : Str) (m : Map ℕ) → established m ≤ established (count_up k m)
unfolding count_up
established-count_up k [] = omega arith
established-count_up k ((j, n) ∷ m) = ground (arith, established-count_up k m)

count_up-Unseen :
    (x k : Str) (m : Map ℕ) → str_eq k x ≡ false → Unseen x m → Unseen x (count_up k m)
unfolding count_up
count_up-Unseen x k [] h u = (h, tt)
count_up-Unseen x k ((j, n) ∷ m) h u = elim (Bool-cases (str_eq j k)) [
  | inl e ↦ rw e u
  | inr e ↦ rw e (u.0, count_up-Unseen x k m h u.1)
]

count_up-Weak : (x k : Str) (m : Map ℕ) → str_eq k x ≡ false → Weak x m → Weak x (count_up k m)
unfolding count_up
count_up-Weak x k [] h w = (ground (arith, h), tt)
count_up-Weak x k ((j, n) ∷ m) h w = elim (Bool-cases (str_eq j k)) [
  | inl e ↦ rw e (ground (arith, e, h, str_eq_iff j k), w.1)
  | inr e ↦ rw e (w.0, count_up-Weak x k m h w.1)
]

-- Its first sighting is one sighting.
count_up-first : (x k : Str) (m : Map ℕ) → str_eq k x ≡ true → Unseen x m → Weak x (count_up k m)
unfolding count_up
count_up-first x k [] h u = (λ e. omega arith, tt)
count_up-first x k ((j, n) ∷ m) h u = elim (Bool-cases (str_eq j k)) [
  | inl e ↦ absurd (ground (arith, e, h, u.0, str_eq_iff j k, str_eq_iff k x, str_eq_iff j x))
  | inr e ↦ rw e (λ f. ground (arith, f, u.0), count_up-first x k m h u.1)
]

-- The marker is named at most once.
abbrev pub Once : Str → List Str → Type 0
Once x [] = Unit
Once x (k ∷ ks) =
    (str_eq (trim_space k) x ≡ true → contains (map trim_space ks) x ≡ false) × Once x ks

established-learn_all : (ks : List Str) (m : Map ℕ) → established m ≤ established (learn_all ks m)
unfolding learn_all
established-learn_all [] m = omega arith
established-learn_all (k ∷ ks) m = elim (Bool-cases (str_eq (trim_space k) [])) [
  | inl e ↦ rw e (established-learn_all ks m)
  | inr e ↦ rw e (
      omega (
        arith,
        established-count_up (trim_space k) m,
        established-learn_all ks (count_up (trim_space k) m),
      ))
]

learn_all-kept :
    (x : Str) (ks : List Str) (m : Map ℕ)
    → contains (map trim_space ks) x ≡ false
    → Weak x m
    → Weak x (learn_all ks m)
unfolding learn_all contains
learn_all-kept x [] m h w = w
learn_all-kept x (k ∷ ks) m h w = elim (Bool-cases (str_eq (trim_space k) [])) [
  | inl e ↦ rw e (learn_all-kept x ks m (ground (arith, h)) w)
  | inr e ↦ rw e (
      learn_all-kept x ks (count_up (trim_space k) m) (ground (arith, h))
        (count_up-Weak x (trim_space k) m (ground (arith, h)) w))
]

learn_all-Weak :
    (x : Str) (ks : List Str) (m : Map ℕ) → Once x ks → Unseen x m → Weak x (learn_all ks m)
unfolding learn_all
learn_all-Weak x [] m o u = Unseen-Weak x m u
learn_all-Weak x (k ∷ ks) m o u = elim (Bool-cases (str_eq (trim_space k) [])) [
  | inl e ↦ rw e (learn_all-Weak x ks m o.1 u)
  | inr e ↦ elim (Bool-cases (str_eq (trim_space k) x)) [
    | inl f ↦ rw e (
        learn_all-kept x ks (count_up (trim_space k) m) (o.0 f)
          (count_up-first x (trim_space k) m f u))
    | inr f ↦ rw e (
        learn_all-Weak x ks (count_up (trim_space k) m) o.1
          (count_up-Unseen x (trim_space k) m f u))
  ]
]

abbrev Full : Str → Map ℕ → Type 0
Full x m = (max_learned ≤ established m) × Unseen x m

cap_learned-Full :
    (x : Str) (m : Map ℕ) → max_learned ≤ established m → Weak x m → Full x (cap_learned m)
unfolding cap_learned
cap_learned-Full x m h w = elim (Bool-cases (leb (length m) max_learned)) [
  | inl e ↦ rw e (
    h,
    Unseen-Established x m w
        (Established-all m (omega (arith, (leb_iff (length m) max_learned).0 e))),
  )
  | inr e ↦
      let top =
        take-Established max_learned (sort_entries m) (sort_entries-Descends m)
          (omega (arith, established-sort_entries m)) in
      rw e (
        omega (arith, top.1),
        Unseen-Established x (take max_learned (sort_entries m))
            (take-Weak x max_learned (sort_entries m) (sort_entries-Weak x m w)) top.0,
      )
]

-- A series of imports into one category.
unfoldable pub learn_each : Map ℕ → List (List Str) → Map ℕ
learn_each m [] = m
learn_each m (ks ∷ imports) = learn_each (learn_markers m ks) imports

learn_each-Full :
    (x : Str) (imports : List (List Str)) (m : Map ℕ)
    → All (Once x) imports
    → Full x m
    → Full x (learn_each m imports)
unfolding learn_each learn_markers
learn_each-Full x [] m o f = f
learn_each-Full x (ks ∷ imports) m o f =
    learn_each-Full x imports (cap_learned (learn_all ks m)) o.1 (
      cap_learned-Full x (learn_all ks m) (omega (arith, f.0, established-learn_all ks m))
        (learn_all-Weak x ks m o.0 f.1))

-- Once a category keeps fifty markers that were each seen twice, no other marker is ever learned
-- there, however many imports carry it (each at most once): every import counts it to one, and the
-- cap drops it again.
pub learn_each-starves :
    (x : Str) (imports : List (List Str)) (m : Map ℕ)
    → max_learned ≤ established m
    → lookup x m ≡ none
    → All (Once x) imports
    → lookup x (learn_each m imports) ≡ none
learn_each-starves x imports m h new o =
    Unseen-lookup x (learn_each m imports)
      (learn_each-Full x imports m o (h, lookup-Unseen x m new)).1
