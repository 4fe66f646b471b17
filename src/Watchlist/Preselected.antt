-- ===== src/Watchlist/Preselected.antt =====
-- internal/watchlist/match.go: what makes a match exact or confident, the two grades that are
-- ticked without a review.
use file_fin.Prelude.{
  ◌≤◌, ◌≡◌, ◌≢◌, refl, ap, subst, ◌⊎◌, inl, inr, Bool, true, false, Bool-cases, Option-cases,
  Option, none, some, List, [], ◌∷◌, Str, str_eq, bytes, Map, ltb_iff, if◌then◌else◌, ℤ, pos, ltb_ℤ,
  eqb_ℤ, ◌<ℤ◌, arith,
}
use file_fin.Sources.Compare.{Unicode}
use file_fin.Watchlist.{
  exact, approximate, Entry, Match, LibraryItem, Ratios, years_apart, year_tolerance, matched,
  grade_unique, decide_unique, decide_within, decide_collision, decide_candidates, fuzzy_answer,
  fuzzy_match, candidates, match_one, closest_year, same_year, within_tolerance, offer, unmatched,
  rejected, Scan, scan_keys, items_at,
}
use file_fin.Watchlist.Key.{normalize}
use file_fin.Watchlist.Years.{Among, same_year-Among, within_tolerance-Among}

-- The only candidate, with a year that is unknown or near; or one of several, with a near year.
abbrev pub Trusted : Entry → List LibraryItem → LibraryItem → Type 0
Trusted e cands it =
    ((cands ≡ it ∷ [])
      × ((eqb_ℤ e.year (pos 0) ≡ true)
          ⊎ ((eqb_ℤ it.year (pos 0) ≡ true) ⊎ (years_apart it.year e.year ≤ year_tolerance))))
    ⊎ (Among it cands × (pos 0 <ℤ e.year) × (years_apart it.year e.year ≤ year_tolerance))

-- A match is of this item and this grade, which is not the grade of an offer.
abbrev pub Preselects : Match → LibraryItem → Type 0
Preselects m it = (m.item ≡ some it) × (m.confidence ≢ some approximate)

same-near : (x y : ℤ) → eqb_ℤ x y ≡ true → years_apart x y ≤ year_tolerance
unfolding years_apart
same-near x y h = ground arith

offer-unselected :
    (e : Entry) (o : Option LibraryItem) (r : Str) (it : LibraryItem)
    → ¬ Preselects (offer e o r) it
offer-unselected e none r it (f, g) = cc
offer-unselected e (some d) r it (f, g) = g refl

if-unselected :
    (b : Bool) (m n : Match) (it : LibraryItem)
    → ¬ Preselects m it
    → ¬ Preselects n it
    → ¬ Preselects (if b then m else n) it
if-unselected true m n it f g = f
if-unselected false m n it f g = g

unmatched-unselected : (e : Entry) (it : LibraryItem) → ¬ Preselects (unmatched e) it
unmatched-unselected e it (f, g) = cc

fuzzy_answer-unselected :
    (uni : Unicode) (fl : Ratios) (idx : Map (List LibraryItem)) (e : Entry) (s : Scan uni fl)
    (it : LibraryItem)
    → ¬ Preselects (fuzzy_answer uni fl idx e s) it
unfolding fuzzy_answer
fuzzy_answer-unselected uni fl idx e s it =
    let near = closest_year (items_at idx s.best_key) e.year in
    if-unselected (rejected uni fl s) (unmatched e) (offer e near (bytes "similar title")) it
      (unmatched-unselected e it) (offer-unselected e near (bytes "similar title") it)

fuzzy_match-unselected :
    (uni : Unicode) (fl : Ratios) (idx : Map (List LibraryItem)) (keys : List Str) (e : Entry)
    (it : LibraryItem)
    → ¬ Preselects (fuzzy_match uni fl idx keys e) it
unfolding fuzzy_match
fuzzy_match-unselected uni fl idx keys e it =
    let s =
      scan_keys uni fl (normalize uni e.title)
        (record { best_key = []; best = fl.zero_r; second = fl.zero_r }) keys in
    if-unselected (str_eq (normalize uni e.title) []) (unmatched e) (fuzzy_answer uni fl idx e s) it
      (unmatched-unselected e it) (fuzzy_answer-unselected uni fl idx e s it)

grade_unique-near :
    (y z : ℤ)
    → grade_unique y z ≢ approximate
    → (eqb_ℤ y (pos 0) ≡ true) ⊎ ((eqb_ℤ z (pos 0) ≡ true) ⊎ (years_apart z y ≤ year_tolerance))
unfolding grade_unique
grade_unique-near y z h = ground (arith, same-near z y)

decide_unique-Trusted :
    (e : Entry) (c it : LibraryItem) → Preselects (decide_unique e c) it → Trusted e (c ∷ []) it
unfolding decide_unique
decide_unique-Trusted e c it (f, g) =
    let same : c ≡ it = cc in
    inl (
      ap (λ d. d ∷ []) same,
      subst
          (λ d.
            (eqb_ℤ e.year (pos 0) ≡ true)
            ⊎ ((eqb_ℤ d.year (pos 0) ≡ true) ⊎ (years_apart d.year e.year ≤ year_tolerance)))
          same (grade_unique-near e.year c.year (λ a. g (ap (λ x. some x) a))),
    )

decide_within-Trusted :
    (e : Entry) (cands near : List LibraryItem) (it : LibraryItem)
    → within_tolerance cands e.year ≡ near
    → pos 0 <ℤ e.year
    → Preselects (decide_within e cands near) it
    → Trusted e cands it
unfolding decide_within
decide_within-Trusted e cands [] it w p h =
    absurd (offer-unselected e (closest_year cands e.year) [] it h)
decide_within-Trusted e cands (c ∷ d ∷ cs) it w p h =
    absurd (offer-unselected e (closest_year cands e.year) [] it h)
decide_within-Trusted e cands (c ∷ []) it w p (f, g) =
    let (among, near) = within_tolerance-Among cands e.year c [] w in
    let same : c ≡ it = cc in
    inr (
      subst (λ d. Among d cands) same among,
      p,
      subst (λ d. years_apart d.year e.year ≤ year_tolerance) same near,
    )

exact-Trusted :
    (e : Entry) (cands : List LibraryItem) (c it : LibraryItem)
    → same_year cands e.year ≡ some c
    → pos 0 <ℤ e.year
    → Preselects (matched e c exact) it
    → Trusted e cands it
exact-Trusted e cands c it s p (f, g) =
    let same : c ≡ it = cc in
    let (among, near) = same_year-Among cands e.year c s in
    inr (
      subst (λ d. Among d cands) same among,
      p,
      subst (λ d. years_apart d.year e.year ≤ year_tolerance) same (same-near c.year e.year near),
    )

decide_collision-Trusted :
    (e : Entry) (cands : List LibraryItem) (it : LibraryItem)
    → Preselects (decide_collision e cands) it
    → Trusted e cands it
unfolding decide_collision
decide_collision-Trusted e cands it h = elim (Bool-cases (ltb_ℤ (pos 0) e.year)) [
  | inr p ↦
      let same : decide_collision e cands ≡ offer e (closest_year cands e.year) [] = rw p refl in
      absurd
        (offer-unselected e (closest_year cands e.year) [] it (subst (λ m. Preselects m it) same h))
  | inl p ↦ elim (Option-cases (same_year cands e.year)) [
    | inl s ↦
        let near = within_tolerance cands e.year in
        let same : decide_collision e cands ≡ decide_within e cands near = rw (p, s) refl in
        decide_within-Trusted e cands near it refl ((ltb_iff _ _).0 p)
          (subst (λ m. Preselects m it) same h)
    | inr (c, s) ↦
        let same : decide_collision e cands ≡ matched e c exact = rw (p, s) refl in
        exact-Trusted e cands c it s ((ltb_iff _ _).0 p) (subst (λ m. Preselects m it) same h)
  ]
]

decide_candidates-Trusted :
    (uni : Unicode) (fl : Ratios) (idx : Map (List LibraryItem)) (keys : List Str) (e : Entry)
    (cands : List LibraryItem) (it : LibraryItem)
    → Preselects (decide_candidates uni fl idx keys e cands) it
    → Trusted e cands it
unfolding decide_candidates
decide_candidates-Trusted uni fl idx keys e [] it h =
    absurd (fuzzy_match-unselected uni fl idx keys e it h)
decide_candidates-Trusted uni fl idx keys e (c ∷ []) it h = decide_unique-Trusted e c it h
decide_candidates-Trusted uni fl idx keys e (c ∷ d ∷ cs) it h =
    decide_collision-Trusted e (c ∷ d ∷ cs) it h

-- An exact or a confident match is of a candidate of the entry: the only one, where a year is
-- missing or the years are at most one apart, or one of several, where the entry has a year and
-- the years are at most one apart.
pub match_one-Trusted :
    (uni : Unicode) (fl : Ratios) (idx : Map (List LibraryItem)) (keys : List Str) (e : Entry)
    (it : LibraryItem)
    → Preselects (match_one uni fl idx keys e) it
    → Trusted e (candidates uni idx e) it
unfolding match_one
match_one-Trusted uni fl idx keys e it h =
    decide_candidates-Trusted uni fl idx keys e (candidates uni idx e) it h
