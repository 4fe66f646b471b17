-- ===== src/Predict/Votes.antt =====
-- internal/server/importpredict.go: what a learned marker votes for, and that neither choice depends
-- on the order in which Go ranges over a map.
use file_fin.Prelude.{
  ℕ, ◌+◌, ◌*◌, ◌^◌, ◌≤◌, ◌<◌, ◌≡◌, ◌⊎◌, refl, ap, subst, ◌∙◌, Bool, true, ◌&&◌, ◌||◌, some, List,
  [], ◌∷◌, ltb, ◌==◌, if◌then◌else◌, Str, str_eq, str_eq_iff, Map, lookup, lookup-insert,
  Bool-cases, inl, inr, arith,
}
use mathlib.Core.List.{Permᴰ}
use file_fin.Library.{Category}
use file_fin.Predict.{
  Tally, Predictor, Vote, Votes, min_sightings, tally_of, total_of, add_tally, add_marker,
  add_learned, add_categories, new_predictor, note_count, best_count, learned_vote, note_vote,
  pick_from, pick_vote,
}

note_count-swap : (s a b : ℕ × ℕ) → note_count (note_count s a) b ≡ note_count (note_count s b) a
unfolding note_count
note_count-swap s a b = ground arith

note_vote-swap :
    (s : ℕ × ℕ) (a b : ℕ × Vote) → note_vote (note_vote s a) b ≡ note_vote (note_vote s b) a
unfolding note_vote
note_vote-swap s a b = ground arith

best_count-Perm : (s : ℕ × ℕ) {t t' : Tally} → Permᴰ t t' → best_count s t ≡ best_count s t'
unfolding best_count
best_count-Perm s Permᴰ.nil = refl
best_count-Perm s (Permᴰ.cons {a} {b} {l₁} {l₂} e p) = rw (← e) (best_count-Perm (note_count s a) p)
best_count-Perm s (Permᴰ.swap {a} {b} {a'} {b'} {l} e f) =
    rw (← e, ← f) (ap (λ (r : ℕ × ℕ). best_count r l) (note_count-swap s a b))
best_count-Perm s (Permᴰ.trans p r) = best_count-Perm s p ∙ best_count-Perm s r

pick_from-Perm :
    (s : ℕ × ℕ) {votes votes' : Votes} → Permᴰ votes votes' → pick_from s votes ≡ pick_from s votes'
unfolding pick_from
pick_from-Perm s Permᴰ.nil = refl
pick_from-Perm s (Permᴰ.cons {a} {b} {l₁} {l₂} e p) = rw (← e) (pick_from-Perm (note_vote s a) p)
pick_from-Perm s (Permᴰ.swap {a} {b} {a'} {b'} {l} e f) =
    rw (← e, ← f) (ap (λ (r : ℕ × ℕ). pick_from r l) (note_vote-swap s a b))
pick_from-Perm s (Permᴰ.trans p r) = pick_from-Perm s p ∙ pick_from-Perm s r

-- The category that the sightings of a marker point at, and the category that wins the vote, do not
-- depend on the order in which Go ranges over either map.
pub votes-order :
    {t t' : Tally} {votes votes' : Votes}
    → Permᴰ t t'
    → Permᴰ votes votes'
    → (best_count (0, 0) t ≡ best_count (0, 0) t') × (pick_vote votes ≡ pick_vote votes')
unfolding pick_vote
votes-order p r = (best_count-Perm (0, 0) p, ap (λ (b : ℕ × ℕ). b.0) (pick_from-Perm (0, 0) r))

-- How often a marker was learned by a category, by the categories with an id, and by all.
abbrev entry_sum : Str → Map ℕ → ℕ
entry_sum marker [] = 0
entry_sum marker ((k, n) ∷ m) = (if str_eq k marker then n else 0) + entry_sum marker m

abbrev pub sightings : Str → List Category → ℕ
sightings marker [] = 0
sightings marker (c ∷ cats) = entry_sum marker c.markers.learned + sightings marker cats

abbrev pub sightings_in : ℕ → Str → List Category → ℕ
sightings_in id marker [] = 0
sightings_in id marker (c ∷ cats) =
    (if c.id == id then entry_sum marker c.markers.learned else 0) + sightings_in id marker cats

abbrev tally_at : ℕ → Tally → ℕ
tally_at id [] = 0
tally_at id ((j, n) ∷ t) = (if j == id then n else 0) + tally_at id t

tally_at-add_tally :
    (id j n : ℕ) (t : Tally)
    → tally_at id (add_tally j n t) ≡ tally_at id t + (if j == id then n else 0)
unfolding add_tally
tally_at-add_tally id j n [] = omega arith
tally_at-add_tally id j n ((k, m) ∷ t) = ground (arith, tally_at-add_tally id j n t)

abbrev total : Str → Predictor → ℕ
total marker p = total_of (lookup marker p.totals)

abbrev seen_in : ℕ → Str → Predictor → ℕ
seen_in id marker p = tally_at id (tally_of (lookup marker p.counts))

total-add_marker :
    (marker : Str) (id : ℕ) (k : Str) (n : ℕ) (p : Predictor)
    → total marker (add_marker id k n p) ≡ total marker p + (if str_eq k marker then n else 0)
total-add_marker marker id k n p = elim (Bool-cases (str_eq k marker)) [
  | inl e ↦
      let same : k ≡ marker = (str_eq_iff k marker).0 e in
      rw (lookup-insert k marker (total k p + n) p.totals, e) (ap (λ (j : Str). total j p + n) same)
  | inr e ↦ rw (lookup-insert k marker (total k p + n) p.totals, e) (omega arith)
]

seen_in-add_marker :
    (marker : Str) (at id : ℕ) (k : Str) (n : ℕ) (p : Predictor)
    → seen_in at marker (add_marker id k n p)
      ≡ seen_in at marker p + (if str_eq k marker then (if id == at then n else 0) else 0)
seen_in-add_marker marker at id k n p =
    let new : Tally = add_tally id n (tally_of (lookup k p.counts)) in
    elim (Bool-cases (str_eq k marker)) [
      | inl e ↦
          let same : k ≡ marker = (str_eq_iff k marker).0 e in
          rw (lookup-insert k marker new p.counts, e)
            (tally_at-add_tally at id n (tally_of (lookup k p.counts))
              ∙ ap (λ (j : Str). seen_in at j p + (if id == at then n else 0)) same)
      | inr e ↦ rw (lookup-insert k marker new p.counts, e) (omega arith)
    ]

total-add_learned :
    (marker : Str) (id : ℕ) (m : Map ℕ) (p : Predictor)
    → total marker (add_learned id m p) ≡ total marker p + entry_sum marker m
unfolding add_learned
total-add_learned marker id [] p = omega arith
total-add_learned marker id ((k, n) ∷ m) p =
    omega
      (arith, total-add_learned marker id m (add_marker id k n p), total-add_marker marker id k n p)

seen_in-add_learned :
    (marker : Str) (at id : ℕ) (m : Map ℕ) (p : Predictor)
    → seen_in at marker (add_learned id m p)
      ≡ seen_in at marker p + (if id == at then entry_sum marker m else 0)
unfolding add_learned
seen_in-add_learned marker at id [] p = ground arith
seen_in-add_learned marker at id ((k, n) ∷ m) p = ground (
  arith,
  seen_in-add_learned marker at id m (add_marker id k n p),
  seen_in-add_marker marker at id k n p,
)

total-add_categories :
    (marker : Str) (cats : List Category) (p : Predictor)
    → total marker (add_categories cats p) ≡ total marker p + sightings marker cats
unfolding add_categories
total-add_categories marker [] p = omega arith
total-add_categories marker (c ∷ cats) p = omega (
  arith,
  total-add_categories marker cats (add_learned c.id c.markers.learned p),
  total-add_learned marker c.id c.markers.learned p,
)

seen_in-add_categories :
    (marker : Str) (at : ℕ) (cats : List Category) (p : Predictor)
    → seen_in at marker (add_categories cats p) ≡ seen_in at marker p + sightings_in at marker cats
unfolding add_categories
seen_in-add_categories marker at [] p = omega arith
seen_in-add_categories marker at (c ∷ cats) p = omega (
  arith,
  seen_in-add_categories marker at cats (add_learned c.id c.markers.learned p),
  seen_in-add_learned marker at c.id c.markers.learned p,
)

note_count-cases : (b : ℕ × ℕ) (e : ℕ × ℕ) → (note_count b e ≡ b) ⊎ (note_count b e ≡ e)
unfolding note_count
note_count-cases (best_id, best) (id, n) =
    elim (Bool-cases (ltb best n || (n == best && ltb id best_id))) [
      | inl e ↦ inr (rw e refl)
      | inr e ↦ inl (rw e refl)
    ]

best_count-tally :
    (b : ℕ × ℕ) (t : Tally)
    → (best_count b t ≡ b) ⊎ ((best_count b t).1 ≤ tally_at (best_count b t).0 t)
unfolding best_count
best_count-tally b [] = inl refl
best_count-tally b ((j, n) ∷ t) =
    later (note_count b (j, n)) (best_count (note_count b (j, n)) t) (note_count-cases b (j, n))
      (best_count-tally (note_count b (j, n)) t)
  where
    later :
        (b' r : ℕ × ℕ)
        → (b' ≡ b) ⊎ (b' ≡ (j, n))
        → (r ≡ b') ⊎ (r.1 ≤ tally_at r.0 t)
        → (r ≡ b) ⊎ (r.1 ≤ tally_at r.0 ((j, n) ∷ t))
    later b' r (inl e) (inl f) = inl (f ∙ e)
    later b' r (inr e) (inl f) = inr (rw (f ∙ e) (ground arith))
    later b' r e (inr h) = inr (ground (arith, h))

best_count-le : (t : Tally) → (best_count (0, 0) t).1 ≤ tally_at (best_count (0, 0) t).0 t
best_count-le t = elim (best_count-tally (0, 0) t) [ inl e ↦ rw e (omega arith) | inr h ↦ h ]

total-new_predictor :
    (marker : Str) (cats : List Category)
    → total marker (new_predictor cats) ≡ sightings marker cats
unfolding new_predictor lookup
total-new_predictor marker cats =
    omega
      (arith, total-add_categories marker cats (record { cats = cats; counts = []; totals = [] }))

seen_in-new_predictor :
    (marker : Str) (id : ℕ) (cats : List Category)
    → seen_in id marker (new_predictor cats) ≡ sightings_in id marker cats
unfolding new_predictor lookup
seen_in-new_predictor marker id cats = omega (
  arith,
  seen_in-add_categories marker id cats (record { cats = cats; counts = []; totals = [] }),
)

module _ (pure : ℕ → ℕ → Bool)
    (purity : (best all : ℕ) → all < 2 ^ 50 → pure best all ≡ true → 4 * all ≤ 5 * best) where
  -- A marker that votes for a category was seen at least twice, and at least four fifths of its
  -- sightings, over all categories, were in that one. The quotient of the floats is at least 0.8 only
  -- where the true one is, for totals below 2 to the 50.
  pub learned_vote-pure :
      (cats : List Category) (marker : Str) (id n : ℕ)
      → sightings marker cats < 2 ^ 50
      → learned_vote pure (new_predictor cats) marker ≡ some (id, n)
      → (2 ≤ sightings marker cats)
        × (n ≤ sightings_in id marker cats)
        × (4 * sightings marker cats ≤ 5 * n)
  unfolding learned_vote
  learned_vote-pure cats marker id n small h =
      elim (Bool-cases (ltb (total marker p) min_sightings)) [
        | inl few ↦ absurd (ground (arith, few, h))
        | inr enough ↦ elim (Bool-cases (pure top.1 (total marker p))) [
          | inl e ↦
              let same : top ≡ (id, n) = ground (arith, enough, e, h) in
              let seen : n ≤ seen_in id marker p =
                subst (λ (b : ℕ × ℕ). b.1 ≤ tally_at b.0 tally) same (best_count-le tally) in
              let most =
                purity top.1 (total marker p) (omega (arith, total-new_predictor marker cats)) e in
              let count : top.1 ≡ n = ap (λ (b : ℕ × ℕ). b.1) same in
              (
                ground (arith, enough, total-new_predictor marker cats),
                omega (arith, seen_in-new_predictor marker id cats),
                omega (arith, total-new_predictor marker cats),
              )
          | inr e ↦ absurd (ground (arith, enough, e, h))
        ]
      ]
    where
      p : Predictor
      p = new_predictor cats

      tally : Tally
      tally = tally_of (lookup marker p.counts)

      top : ℕ × ℕ
      top = best_count (0, 0) tally
