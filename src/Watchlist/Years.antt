-- ===== src/Watchlist/Years.antt =====
-- internal/watchlist/match.go: the searches by year among the candidates of one title.
use file_fin.Prelude.{
  ℕ, suc, ◌≤◌, ◌≡◌, refl, ap, subst, ◌⊎◌, inl, inr, true, Bool-cases, some, List, [], ◌∷◌,
  get_elem?, keep, All, ltb, leb, ltb_iff, if◌then◌else◌, ℤ, pos, ltb_ℤ, eqb_ℤ, arith, ◌&&◌,
}
use file_fin.Watchlist.{
  LibraryItem, years_apart, closest_from, closest_year, same_year, within_tolerance, year_tolerance,
}

abbrev pub Among : LibraryItem → List LibraryItem → Type 0
Among it cands = (i : ℕ) × (get_elem? cands i ≡ some it)

closest_from-le :
    (pick : LibraryItem) (cs : List LibraryItem) (y : ℤ)
    → years_apart (closest_from pick cs y).year y ≤ years_apart pick.year y
unfolding closest_from
closest_from-le pick [] y = omega arith
closest_from-le pick (c ∷ cs) y =
    elim (Bool-cases (ltb (years_apart c.year y) (years_apart pick.year y))) [
      | inl h ↦
          rw (h, closest_from)
            (omega (
              arith,
              closest_from-le c cs y,
              (ltb_iff (years_apart c.year y) (years_apart pick.year y)).0 h,
            ))
      | inr h ↦ rw (h, closest_from) (closest_from-le pick cs y)
    ]

nearer-le :
    (pick c : LibraryItem) (y : ℤ)
    → years_apart (if ltb (years_apart c.year y) (years_apart pick.year y) then c else pick).year y
      ≤ years_apart c.year y
nearer-le pick c y = ground arith

closest_from-All :
    (pick : LibraryItem) (cs : List LibraryItem) (y : ℤ)
    → All (λ d. years_apart (closest_from pick cs y).year y ≤ years_apart d.year y) cs
unfolding closest_from
closest_from-All pick [] y = tt
closest_from-All pick (c ∷ cs) y =
    let next = if ltb (years_apart c.year y) (years_apart pick.year y) then c else pick in
    (omega (arith, closest_from-le next cs y, nearer-le pick c y), closest_from-All next cs y)

closest_from-Among :
    (pick : LibraryItem) (cs : List LibraryItem) (y : ℤ)
    → (closest_from pick cs y ≡ pick) ⊎ Among (closest_from pick cs y) cs
unfolding closest_from
closest_from-Among pick [] y = inl refl
closest_from-Among pick (c ∷ cs) y =
    elim (Bool-cases (ltb (years_apart c.year y) (years_apart pick.year y))) [
      | inl h ↦
          rw (h, closest_from)
            (elim (closest_from-Among c cs y) [
              | inl e ↦ inr (0, rw e refl)
              | inr (i, e) ↦ inr (suc i, e)
            ])
      | inr h ↦
          rw (h, closest_from)
            (elim (closest_from-Among pick cs y) [ inl e ↦ inl e | inr (i, e) ↦ inr (suc i, e) ])
    ]

-- The candidate that is offered for review is one of the candidates, and no candidate is nearer to
-- the year of the entry.
pub closest_year-nearest :
    (cands : List LibraryItem) (y : ℤ) (it : LibraryItem)
    → closest_year cands y ≡ some it
    → Among it cands × All (λ d. years_apart it.year y ≤ years_apart d.year y) cands
unfolding closest_year
closest_year-nearest [] y it h = cc
closest_year-nearest (c ∷ cs) y it h =
    let e : closest_from c (c ∷ cs) y ≡ it = cc in
    subst (λ p. Among p (c ∷ cs) × All (λ d. years_apart p.year y ≤ years_apart d.year y) (c ∷ cs))
      e
      (
        elim (closest_from-Among c (c ∷ cs) y) [ inl f ↦ (0, rw f refl) | inr (i, f) ↦ (i, f) ],
        closest_from-All c (c ∷ cs) y,
      )

pub same_year-Among :
    (cands : List LibraryItem) (y : ℤ) (it : LibraryItem)
    → same_year cands y ≡ some it
    → Among it cands × (eqb_ℤ it.year y ≡ true)
unfolding same_year
same_year-Among [] y it h = cc
same_year-Among (c ∷ cs) y it h = elim (Bool-cases (eqb_ℤ c.year y)) [
  | inl e ↦
      let f : c ≡ it = ground (arith, h, e) in
      ((0, ap (λ d. some d) f), subst (λ d. eqb_ℤ d.year y ≡ true) f e)
  | inr e ↦ let ((i, f), g) = same_year-Among cs y it (ground (arith, h, e)) in ((suc i, f), g)
]

pub within_tolerance-Among :
    (cands : List LibraryItem) (y : ℤ) (it : LibraryItem) (rest : List LibraryItem)
    → within_tolerance cands y ≡ it ∷ rest
    → Among it cands × (years_apart it.year y ≤ year_tolerance)
unfolding within_tolerance keep
within_tolerance-Among [] y it rest h = cc
within_tolerance-Among (c ∷ cs) y it rest h =
    elim (Bool-cases (ltb_ℤ (pos 0) c.year && leb (years_apart c.year y) year_tolerance)) [
      | inl e ↦
          let f : c ≡ it = ground (arith, h, e) in
          (
            (0, ap (λ d. some d) f),
            subst (λ d. years_apart d.year y ≤ year_tolerance) f (ground (arith, e)),
          )
      | inr e ↦
          let ((i, f), g) = within_tolerance-Among cs y it rest (ground (arith, h, e)) in
          ((suc i, f), g)
    ]
