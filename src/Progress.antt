-- ===== src/Progress.antt =====
-- internal/server/activity.go: the drain tracker, which gives a queue a total, and the percentage of
-- a copy.
use file_fin.Prelude.{
  ℕ, zero, suc, max, ◌||◌, ◌&&◌, not, ap, ◌∙◌, ◌-◌, ◌*◌, ◌/◌, ◌≡◌, refl, Bool, true, Option, none,
  some, List, [], ◌∷◌, Str, str_eq, str_eq_iff, str_eq_self, Map, lookup, insert, delete,
  lookup-insert, lookup-delete, ltb, ◌==◌, if◌then◌else◌, Bool-cases, inl, inr, arith,
}

-- `d.high[kind]`, 0 for a missing key.
unfoldable pub high : Map ℕ → Str → ℕ
high d kind = elim (lookup kind d) [ none ↦ 0 | some n ↦ n ]

unfoldable pub raise_high : Map ℕ → Str → ℕ → Map ℕ
raise_high d kind remaining = if ltb (high d kind) remaining then insert kind remaining d else d

-- What is left of the map, and done and total of the run, if there is one. A count of a queue is not
-- negative.
unfoldable pub observe : Map ℕ → Str → ℕ → Map ℕ × Option (ℕ × ℕ)
unfolding raise_high
observe d kind zero = (delete kind d, none)
observe d kind (suc n) =
    let d' = raise_high d kind (suc n) in (d', some (high d' kind - suc n, high d' kind))

high-insert :
    (d : Map ℕ) (k j : Str) (n : ℕ) → high (insert k n d) j ≡ (if str_eq k j then n else high d j)
unfolding high
high-insert d k j n = elim (Bool-cases (str_eq k j)) [
  | inl e ↦ rw (e, high, lookup-insert k j n d, e) refl
  | inr e ↦ rw (e, high, lookup-insert k j n d, e) refl
]

high-raise_high :
    (d : Map ℕ) (k j : Str) (n : ℕ)
    → high (raise_high d k n) j ≡ (if str_eq k j then max (high d k) n else high d j)
unfolding raise_high
high-raise_high d k j n = elim (Bool-cases (ltb (high d k) n)) [
  | inl e ↦ rw (e, raise_high) (high-insert d k j n ∙ ground (arith, e))
  | inr e ↦
      rw (e, raise_high) (ground (arith, e, str_eq_iff k j, λ (s : k ≡ j). ap (λ x. high d x) s))
]

high-delete : (d : Map ℕ) (k j : Str) → high (delete k d) j ≡ (if str_eq k j then 0 else high d j)
unfolding high
high-delete d k j = elim (Bool-cases (str_eq k j)) [
  | inl e ↦ rw (e, high, lookup-delete k j d, e) refl
  | inr e ↦ rw (e, high, lookup-delete k j d, e) refl
]

abbrev kept : ℕ → ℕ → ℕ
kept h zero = 0
kept h (suc n) = max h (suc n)

kept-busy : (h n : ℕ) → ltb 0 n ≡ true → kept h n ≡ max h n
kept-busy h zero b = ground (arith, b)
kept-busy h (suc n) b = refl

high-observe :
    (d : Map ℕ) (k j : Str) (n : ℕ)
    → high (observe d k n).0 j ≡ (if str_eq k j then kept (high d k) n else high d j)
unfolding observe
high-observe d k j zero = high-delete d k j
high-observe d k j (suc n) = high-raise_high d k j (suc n)

-- The counts of all queues, in the order in which they are observed.
unfoldable pub observe_all : Map ℕ → List (Str × ℕ) → Map ℕ
observe_all d [] = d
observe_all d ((k, n) ∷ rest) = observe_all (observe d k n).0 rest

-- The greatest count of one queue, from the one before.
abbrev pub peak : Str → ℕ → List (Str × ℕ) → ℕ
peak j h [] = h
peak j h ((k, n) ∷ rest) = peak j (if str_eq k j then max h n else h) rest

-- The queue is seen with work left, whenever it is seen.
abbrev pub busy : Str → List (Str × ℕ) → Bool
busy j [] = true
busy j ((k, n) ∷ rest) = (not (str_eq k j) || ltb 0 n) && busy j rest

high-observe_all :
    (j : Str) (obs : List (Str × ℕ)) (d : Map ℕ)
    → busy j obs ≡ true
    → high (observe_all d obs) j ≡ peak j (high d j) obs
unfolding observe_all
high-observe_all j [] d h = refl
high-observe_all j ((k, n) ∷ obs) d h =
    high-observe_all j obs (observe d k n).0 (ground (arith, h))
    ∙ ap (λ x. peak j x obs) (one d k n (ground (arith, h)))
  where
    one :
        (d : Map ℕ) (k : Str) (n : ℕ)
        → (not (str_eq k j) || ltb 0 n) ≡ true
        → high (observe d k n).0 j ≡ (if str_eq k j then max (high d j) n else high d j)
    one d k n b =
        high-observe d k j n
        ∙ ground
            (arith, b, kept-busy (high d k) n, str_eq_iff k j, λ (s : k ≡ j). ap (λ x. high d x) s)

-- While a queue is not seen empty, its run has the greatest count seen as its total, other queues
-- in between or not, and what is done is that less the count: the total never falls.
pub observe-peak :
    (d : Map ℕ) (obs : List (Str × ℕ)) (j : Str) (n : ℕ)
    → busy j obs ≡ true
    → (observe (observe_all d obs) j (suc n)).1
      ≡ some (max (peak j (high d j) obs) (suc n) - suc n, max (peak j (high d j) obs) (suc n))
unfolding observe
observe-peak d obs j n h =
    let total : high (raise_high (observe_all d obs) j (suc n)) j
        ≡ max (peak j (high d j) obs) (suc n) =
      high-raise_high (observe_all d obs) j j (suc n)
      ∙ rw (str_eq_self j, high-observe_all j obs d h) refl in
    rw total refl

-- `bytePercent`, for a count that is not negative.
unfoldable pub byte_percent : ℕ → ℕ → ℕ
byte_percent copied total =
    if total == 0 then 0 else if ltb (copied * 100 / total) 100 then copied * 100 / total else 100
