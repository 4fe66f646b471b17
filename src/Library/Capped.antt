-- ===== src/Library/Capped.antt =====
-- internal/library/library.go: the sort of `capLearned`, and which markers stand in front.
use file_fin.Prelude.{
  ℕ, zero, suc, ◌+◌, ◌≤◌, ◌≡◌, refl, true, false, [], ◌∷◌, Str, str_eq, Map, length, take, leb,
  if◌then◌else◌, Bool-cases, inl, inr, arith, leb_iff,
}
use file_fin.Library.Markings.{stronger, insert_entry, sort_entries}

-- The markers that have been seen at least twice.
abbrev pub established : Map ℕ → ℕ
established [] = 0
established ((k, n) ∷ m) = (if leb 2 n then 1 else 0) + established m

abbrev pub Established : Map ℕ → Type 0
Established [] = Unit
Established ((k, n) ∷ m) = (2 ≤ n) × Established m

-- No entry of the marker, or none with more than one sighting.
abbrev pub Unseen : Str → Map ℕ → Type 0
Unseen k [] = Unit
Unseen k ((j, n) ∷ m) = (str_eq j k ≡ false) × Unseen k m

abbrev pub Weak : Str → Map ℕ → Type 0
Weak k [] = Unit
Weak k ((j, n) ∷ m) = (str_eq j k ≡ true → n ≤ 1) × Weak k m

abbrev Below : ℕ → Map ℕ → Type 0
Below b [] = Unit
Below b ((j, n) ∷ m) = (n ≤ b) × Below b m

abbrev pub Descends : Map ℕ → Type 0
Descends [] = Unit
Descends ((j, n) ∷ m) = Below n m × Descends m

Below-mono : (a b : ℕ) (m : Map ℕ) → a ≤ b → Below a m → Below b m
Below-mono a b [] h d = tt
Below-mono a b ((j, n) ∷ m) h d = (omega arith, Below-mono a b m h d.1)

Below-insert_entry :
    (b : ℕ) (k : Str) (c : ℕ) (m : Map ℕ) → c ≤ b → Below b m → Below b (insert_entry (k, c) m)
unfolding insert_entry
Below-insert_entry b k c [] h d = (h, tt)
Below-insert_entry b k c ((j, n) ∷ m) h d = elim (Bool-cases (stronger (j, n) (k, c))) [
  | inl e ↦ rw e (d.0, Below-insert_entry b k c m h d.1)
  | inr e ↦ rw e (h, d)
]

insert_entry-Descends :
    (k : Str) (c : ℕ) (m : Map ℕ) → Descends m → Descends (insert_entry (k, c) m)
unfolding insert_entry
insert_entry-Descends k c [] d = (tt, tt)
insert_entry-Descends k c ((j, n) ∷ m) d = elim (Bool-cases (stronger (j, n) (k, c))) [
  | inl e ↦ rw e (
    Below-insert_entry n k c m (unfold stronger in ground (arith, e)) d.0,
    insert_entry-Descends k c m d.1,
  )
  | inr e ↦
      let above : n ≤ c = unfold stronger in ground (arith, e) in
      rw e ((above, Below-mono n c m above d.0), d)
]

pub sort_entries-Descends : (m : Map ℕ) → Descends (sort_entries m)
unfolding sort_entries
sort_entries-Descends [] = tt
sort_entries-Descends ((k, c) ∷ m) =
    insert_entry-Descends k c (sort_entries m) (sort_entries-Descends m)

established-insert_entry :
    (k : Str) (c : ℕ) (m : Map ℕ)
    → established (insert_entry (k, c) m) ≡ (if leb 2 c then 1 else 0) + established m
unfolding insert_entry
established-insert_entry k c [] = refl
established-insert_entry k c ((j, n) ∷ m) = elim (Bool-cases (stronger (j, n) (k, c))) [
  | inl e ↦ rw e (omega (arith, established-insert_entry k c m))
  | inr e ↦ rw e refl
]

pub established-sort_entries : (m : Map ℕ) → established (sort_entries m) ≡ established m
unfolding sort_entries
established-sort_entries [] = refl
established-sort_entries ((k, c) ∷ m) =
    omega (arith, established-insert_entry k c (sort_entries m), established-sort_entries m)

Weak-insert_entry :
    (x k : Str) (c : ℕ) (m : Map ℕ)
    → (str_eq k x ≡ true → c ≤ 1)
    → Weak x m
    → Weak x (insert_entry (k, c) m)
unfolding insert_entry
Weak-insert_entry x k c [] h w = (h, tt)
Weak-insert_entry x k c ((j, n) ∷ m) h w = elim (Bool-cases (stronger (j, n) (k, c))) [
  | inl e ↦ rw e (w.0, Weak-insert_entry x k c m h w.1)
  | inr e ↦ rw e (h, w)
]

pub sort_entries-Weak : (x : Str) (m : Map ℕ) → Weak x m → Weak x (sort_entries m)
unfolding sort_entries
sort_entries-Weak x [] w = tt
sort_entries-Weak x ((k, c) ∷ m) w =
    Weak-insert_entry x k c (sort_entries m) w.0 (sort_entries-Weak x m w.1)

pub take-Weak : (x : Str) (i : ℕ) (m : Map ℕ) → Weak x m → Weak x (take i m)
take-Weak x zero m w = tt
take-Weak x (suc i) [] w = tt
take-Weak x (suc i) ((k, c) ∷ m) w = (w.0, take-Weak x i m w.1)

-- In a falling list, markers seen once stand behind those seen twice.
established-Below : (m : Map ℕ) (b : ℕ) → b ≤ 1 → Below b m → established m ≡ 0
established-Below [] b h d = refl
established-Below ((k, c) ∷ m) b h d = ground (arith, established-Below m b)

pub take-Established :
    (i : ℕ) (m : Map ℕ)
    → Descends m
    → i ≤ established m
    → Established (take i m) × (established (take i m) ≡ i)
take-Established zero m d h = (tt, refl)
take-Established (suc i) [] d h = absurd (omega arith)
take-Established (suc i) ((k, c) ∷ m) d h = elim (Bool-cases (leb 2 c)) [
  | inl e ↦
      let rest = take-Established i m d.1 (ground (arith, e)) in
      rw e (((leb_iff 2 c).0 e, rest.0), omega (arith, rest.1))
  | inr e ↦ absurd (ground (arith, e, established-Below m c))
]

established-le : (m : Map ℕ) → established m ≤ length m
established-le [] = omega arith
established-le ((k, c) ∷ m) = ground (arith, established-le m)

pub Established-all : (m : Map ℕ) → length m ≤ established m → Established m
Established-all [] h = tt
Established-all ((k, c) ∷ m) h =
    (ground (arith, established-le m), Established-all m (ground (arith, established-le m)))

pub Unseen-Established : (k : Str) (m : Map ℕ) → Weak k m → Established m → Unseen k m
Unseen-Established k [] w e = tt
Unseen-Established k ((j, n) ∷ m) w e = (ground (arith, w.0), Unseen-Established k m w.1 e.1)
