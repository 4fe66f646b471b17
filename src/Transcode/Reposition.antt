-- ===== src/Transcode/Reposition.antt =====
-- internal/transcode/hls.go: when a request for a segment relaunches the encoder.
use file_fin.Prelude.{
  ℕ, zero, suc, ◌+◌, ◌≤◌, ◌≡◌, true, ◌&&◌, ◌||◌, Option, none, some, List, [], ◌∷◌, get_elem?, ltb,
  leb, if◌then◌else◌, Bool-cases, inl, inr, Str, ℤ, pos, pos_part, neg_part, ◌≤ℤ◌, arith,
}
use file_fin.Transcode.{
  segment_name, seg_index, raise_highest, highest_seg, before, above, reposition_target,
  reposition_lead,
}

raise_highest-le :
    (start : ℕ) (names : List Str) (highest : ℤ) → highest ≤ℤ raise_highest start highest names
unfolding raise_highest
raise_highest-le start [] highest = omega arith
raise_highest-le start (name ∷ names) highest =
    let n = seg_index name in
    elim (Bool-cases (segment_name name && leb start n && above n highest)) [
      | inl e ↦ rw e (ground (arith, raise_highest-le start names (pos n)))
      | inr e ↦ rw e (raise_highest-le start names highest)
    ]

-- A segment on disk from the run's start on is at most the highest one.
seg_index-le-raise_highest :
    (start : ℕ) (names : List Str) (i : ℕ) (name : Str) (highest : ℤ)
    → get_elem? names i ≡ some name
    → segment_name name ≡ true
    → start ≤ seg_index name
    → pos (seg_index name) ≤ℤ raise_highest start highest names
unfolding raise_highest
seg_index-le-raise_highest start [] i name highest found valid above_start = cc
seg_index-le-raise_highest start (x ∷ xs) zero name highest found valid above_start =
    let same : x ≡ name = cc in
    rw same
      (elim (Bool-cases
        (segment_name name && leb start (seg_index name) && above (seg_index name) highest)) [
          | inl e ↦ rw e (raise_highest-le start xs (pos (seg_index name)))
          | inr e ↦ rw e (ground (arith, raise_highest-le start xs highest))
        ])
seg_index-le-raise_highest start (x ∷ xs) (suc i) name highest found valid above_start =
    let counts = segment_name x && leb start (seg_index x) && above (seg_index x) highest in
    seg_index-le-raise_highest start xs i name (if counts then pos (seg_index x) else highest) found
      valid above_start

-- The start of the run that serves a request.
abbrev pub served_from : ℕ → Option ℕ → ℕ
served_from start none = start
served_from start (some target) = target

before-le :
    (n : ℕ) (highest : ℤ)
    → before n ≤ℤ highest
    → n + neg_part highest ≤ pos_part highest + reposition_lead
before-le zero highest h = omega (arith, h)
before-le (suc n) highest h = omega (arith, h)

-- Whatever is on disk, after the decision on a request the run starts at or before the requested
-- segment, and the segment is at most three past the highest one on disk from the run's start on.
pub reposition_target-reach :
    (names : List Str) (start requested : ℕ)
    → let start' =
        served_from start (reposition_target start (highest_seg names start) requested) in
      let highest = highest_seg names start' in
      (start' ≤ requested) × (requested + neg_part highest ≤ pos_part highest + reposition_lead)
unfolding reposition_target highest_seg
reposition_target-reach names start requested =
    let highest = raise_highest start (before start) names in
    elim (Bool-cases (
      ltb requested start
      || ltb (pos_part highest + reposition_lead) (requested + neg_part highest))) [
        | inl e ↦ rw e (
          omega arith,
          before-le requested (raise_highest requested (before requested) names)
              (raise_highest-le requested names (before requested)),
        )
        | inr e ↦ rw e (ground arith)
      ]

-- A request at or after the start of the current run, for a segment at or below some segment on
-- disk, never relaunches the encoder: it need not be the current run that has written that one.
pub reposition_target-stale :
    (names : List Str) (start requested i : ℕ) (name : Str)
    → get_elem? names i ≡ some name
    → segment_name name ≡ true
    → start ≤ requested
    → requested ≤ seg_index name
    → reposition_target start (highest_seg names start) requested ≡ none
unfolding reposition_target highest_seg
reposition_target-stale names start requested i name found valid above_start below =
    ground (
      arith,
      seg_index-le-raise_highest start names i name (before start) found valid (omega arith),
    )
