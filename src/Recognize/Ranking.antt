-- ===== src/Recognize/Ranking.antt =====
-- internal/recognize/sanity.go: which candidate wins, and when it is trusted.
use file_fin.Prelude.{
  ℕ, zero, suc, ◌≡◌, refl, Bool, true, false, not, List, [], ◌∷◌, ◌++◌, All, Bool-cases, inl, inr,
  arith,
}
use file_fin.Recognize.{
  Parsed, Looks, Scored, Check, high, title_agreement, when, less_doubtful, insert_scored, rank,
  completed, best, best_of, score_from, check_files, titles_agree, confidence_of,
}

-- No candidate is less doubtful than the first.
abbrev pub Least : List Scored → List Scored → Type 0
Least [] cands = cands ≡ []
Least (w ∷ rest) cands = All (λ c. less_doubtful c w ≡ false) cands

not_less :
    (a w c : Scored)
    → less_doubtful w a ≡ false
    → less_doubtful c w ≡ false
    → less_doubtful c a ≡ false
unfolding less_doubtful
not_less a w c h k = ground arith

less_self : (a : Scored) → less_doubtful a a ≡ false
unfolding less_doubtful
less_self a = ground arith

less_asym : (a w : Scored) → less_doubtful w a ≡ true → less_doubtful a w ≡ false
unfolding less_doubtful
less_asym a w h = ground arith

All-not_less :
    (a w : Scored) (cands : List Scored)
    → less_doubtful w a ≡ false
    → All (λ c. less_doubtful c w ≡ false) cands
    → All (λ c. less_doubtful c a ≡ false) cands
All-not_less a w [] h k = tt
All-not_less a w (c ∷ cands) h k = (not_less a w c h k.0, All-not_less a w cands h k.1)

insert_scored-Least :
    (a : Scored) (ranked cands : List Scored)
    → Least ranked cands
    → Least (insert_scored a ranked) (a ∷ cands)
unfolding insert_scored
insert_scored-Least a [] cands h = rw h (less_self a, tt)
insert_scored-Least a (w ∷ rest) cands h = elim (Bool-cases (less_doubtful w a)) [
  | inl e ↦ rw e (less_asym a w e, h)
  | inr e ↦ rw e (less_self a, All-not_less a w cands e h)
]

-- The candidate that wins has no more hard failures than any other, and no more soft ones than any
-- other with as many hard ones.
pub rank-Least : (cands : List Scored) → Least (rank cands) cands
unfolding rank
rank-Least [] = refl
rank-Least (c ∷ cands) = insert_scored-Least c (rank cands) cands (rank-Least cands)

confidence_of-high :
    (hard soft : List Check) (i : ℕ)
    → confidence_of hard soft i ≡ high
    → (hard ≡ []) × (soft ≡ []) × (i ≡ 0)
confidence_of-high (c ∷ hard) soft i h = cc
confidence_of-high [] (c ∷ soft) i h = cc
confidence_of-high [] [] zero h = (refl, refl, refl)
confidence_of-high [] [] (suc i) h = cc

completed-at :
    (win : Scored) (others : List Scored) → (completed win others).at_place ≡ win.at_place
unfolding completed
completed-at win others = ground arith

completed-hard : (win : Scored) (others : List Scored) → (completed win others).hard ≡ win.hard
unfolding completed
completed-hard win others = ground arith

append_nil-both {ℓ} : {A : Type ℓ} (xs ys : List A) → xs ++ ys ≡ [] → (xs ≡ []) × (ys ≡ [])
append_nil-both [] ys h = (refl, h)
append_nil-both (x ∷ xs) ys h = cc

-- What high confidence stands for.
abbrev pub Trusted : List Check → List Check → List Scored → Type 0
Trusted file_hard file_soft [] = ⊥
Trusted file_hard file_soft (win ∷ others) =
    (file_hard ≡ []) × (file_soft ≡ []) × (win.hard ≡ []) × (win.at_place ≡ 0)

best_of-Trusted :
    (file_hard file_soft : List Check) (ranked : List Scored)
    → (best_of file_hard file_soft ranked).confidence ≡ high
    → Trusted file_hard file_soft ranked × ((best_of file_hard file_soft ranked).failed ≡ [])
best_of-Trusted file_hard file_soft [] h = cc
best_of-Trusted file_hard file_soft (win ∷ others) h =
    let w = completed win others in
    let (no_hard, no_soft, first) =
      confidence_of-high (file_hard ++ w.hard) (file_soft ++ w.soft) w.at_place h in
    let hard = append_nil-both file_hard w.hard no_hard in
    let soft = append_nil-both file_soft w.soft no_soft in
    (
      (
        hard.0,
        soft.0,
        rw (← completed-hard win others) hard.1,
        rw (← completed-at win others) first,
      ),
      rw (no_hard, no_soft) refl,
    )

-- A recognised item has high confidence only if no check failed on the files, the titles of the
-- files agree, no hard check failed on the winning candidate, the winner is the candidate that the
-- caller expected to win, and no failure is reported.
pub best-Trusted :
    (l : Looks) (cands files : List Parsed) (is_show : Bool)
    → (best l cands files is_show).confidence ≡ high
    → Trusted
        ((check_files files is_show).0 ++ when (not (titles_agree files)) title_agreement)
        (check_files files is_show).1
        (rank (score_from l 0 cands))
      × ((best l cands files is_show).failed ≡ [])
unfolding best
best-Trusted l cands files is_show h =
    best_of-Trusted
      ((check_files files is_show).0 ++ when (not (titles_agree files)) title_agreement)
      (check_files files is_show).1 (rank (score_from l 0 cands)) h
