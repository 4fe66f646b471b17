-- ===== src/State/Forward.antt =====
-- internal/state/engine.go: the resume pointer only ever moves forward.
use file_fin.Prelude.{
  ℕ, zero, suc, ◌+◌, ◌-◌, ◌<◌, ◌≤◌, ◌≡◌, refl, inl, inr, Bool, true, false, ◌&&◌, ◌||◌, not, Option,
  none, some, List, [], ◌∷◌, Bool-cases, length, get_elem?, get_or, get_elem?-get_or, Str,
  str_eq_iff, contains-get_elem?, Unique, ℤ, pos, ◌<ℤ◌, ◌≤ℤ◌, ltb_ℤ, leb_ℤ, eqb_ℤ, pos_part, ◌==◌,
  arith,
}
use file_fin.State.{
  Floats, Pointer, UserState, index_from, index_of, cur_idx, next_progress, advance, report, apply,
  has_crossed, round,
}

index_from-get_elem? :
    (i : ℕ) (refs : List Str) (t : ℕ) (r : Str)
    → Unique refs
    → get_elem? refs t ≡ some r
    → index_from i refs r ≡ pos (i + t)
unfolding index_from
index_from-get_elem? i [] t r u h = cc
index_from-get_elem? i (x ∷ refs) zero r u h = ground (arith, str_eq_iff x r)
index_from-get_elem? i (x ∷ refs) (suc t) r u h =
    ground
      (arith, str_eq_iff x r, contains-get_elem? refs t r, index_from-get_elem? (i + 1) refs t r)

index_of-get_or :
    (refs : List Str) (t : ℕ)
    → Unique refs
    → t < length refs
    → index_of refs (get_or refs t []) ≡ pos t
unfolding index_of
index_of-get_or refs t u h =
    ground
      (arith, index_from-get_elem? 0 refs t (get_or refs t []) u (get_elem?-get_or refs t [] h))

-- What a report may do to the pointer of a list of files: leave it, move it to a later file (from
-- nothing or a file that is gone counts as before the first), or to a later second of its file.
pub data Ahead (refs : List Str) (old new : Option Pointer) : Type 0 where
  kept : new ≡ old → Ahead refs old new
  later_file : cur_idx old refs <ℤ cur_idx new refs → Ahead refs old new
  later_second :
      (p q : Pointer)
      → old ≡ some p
      → new ≡ some q
      → cur_idx new refs ≡ cur_idx old refs
      → p.seconds <ℤ q.seconds
      → Ahead refs old new

module _ (refs : List Str) (u : Unique refs) (t : ℕ) (h : t < length refs) where
  next_progress-Ahead :
      (o : Option Pointer) (secs : ℤ) (crossed : Bool)
      → Ahead refs o (next_progress o refs t secs crossed)
  unfolding next_progress
  next_progress-Ahead none secs crossed = later_file (ground (arith, index_of-get_or refs t u h))
  next_progress-Ahead (some p) secs crossed =
      let q : Pointer = record { file = get_or refs t []; seconds = secs } in
      let at : index_of refs q.file ≡ pos t = index_of-get_or refs t u h in
      let old = index_of refs p.file in
      elim (Bool-cases (ltb_ℤ old (pos t))) [
        | inl a ↦ rw a (later_file (ground (arith, at)))
        | inr a ↦
            rw a (elim (Bool-cases (eqb_ℤ (pos t) old && not crossed && ltb_ℤ p.seconds secs)) [
              | inl b ↦ rw b (later_second p q refl refl (ground (arith, at)) (ground arith))
              | inr b ↦ rw b (kept refl)
            ])
      ]

  next_progress-reaches :
      (o : Option Pointer) (secs : ℤ) (crossed : Bool)
      → pos t ≤ℤ cur_idx (next_progress o refs t secs crossed) refs
  unfolding next_progress
  next_progress-reaches none secs crossed = ground (arith, index_of-get_or refs t u h)
  next_progress-reaches (some p) secs crossed = ground (arith, index_of-get_or refs t u h)

module _ (s : UserState) (refs : List Str) (u : Unique refs) (i : ℕ) (h : i < length refs) where
  -- What both facts about `report` are proved from: they hold at every target that it may choose.
  report-at :
      (P : Option Pointer → Type 0)
      → ((t : ℕ) (secs : ℤ) (crossed : Bool)
          → i ≤ t
          → t < length refs
          → P (next_progress s.progress refs t secs crossed))
      → (crossed : Bool) (secs : ℤ) → P (report s refs i crossed secs).progress
  unfolding report advance
  report-at P at false secs = at i secs false (omega arith) h
  report-at P at true secs = elim (Bool-cases (i == (length refs - 1))) [
    | inl last ↦ rw last (at i secs true (omega arith) h)
    | inr more ↦ rw more (at (i + 1) (pos 0) true (omega arith) (ground arith))
  ]

module _ (fl : Floats) (s : UserState) (refs : List Str) (u : Unique refs) where
  open fl use {Float}

  -- A report never moves the resume pointer back: it keeps it, moves it to a later file of the
  -- list, or to a later second of the file that it is in, whatever file, position and duration are
  -- reported, provided that no two files of the list have the same reference.
  pub apply-Ahead :
      (file_index : ℤ) (position duration : Float)
      → Ahead refs s.progress (apply fl s refs file_index position duration).progress
  unfolding apply
  apply-Ahead file_index position duration =
      elim (Bool-cases (ltb_ℤ file_index (pos 0) || leb_ℤ (pos (length refs)) file_index)) [
        | inl out ↦ rw out (kept refl)
        | inr within ↦ rw within (
            report-at s refs u (pos_part file_index) (ground arith) (λ o. Ahead refs s.progress o)
              (λ t secs c low high. next_progress-Ahead refs u t high s.progress secs c)
              (has_crossed fl position duration) (round fl position))
      ]

  -- A report of a file of the list leaves the resume pointer at that file or a later one, again if
  -- no two files of the list have the same reference.
  pub apply-reaches :
      (i : ℕ) (position duration : Float)
      → i < length refs
      → pos i ≤ℤ cur_idx (apply fl s refs (pos i) position duration).progress refs
  unfolding apply
  apply-reaches i position duration h =
      let within : (ltb_ℤ (pos i) (pos 0) || leb_ℤ (pos (length refs)) (pos i)) ≡ false =
        ground arith in
      rw within (
        report-at s refs u i h (λ o. pos i ≤ℤ cur_idx o refs)
          (λ t secs c low high.
            omega (arith, low, next_progress-reaches refs u t high s.progress secs c))
          (has_crossed fl position duration) (round fl position))

get_elem?-some :
    (refs : List Str) (j : ℕ) (r : Str)
    → get_elem? refs j ≡ some r
    → (j < length refs) × (get_or refs j [] ≡ r)
get_elem?-some [] j r h = cc
get_elem?-some (x ∷ refs) zero r h = (omega arith, cc)
get_elem?-some (x ∷ refs) (suc j) r h =
    let rest = get_elem?-some refs j r h in (omega (arith, rest.0), rest.1)

next_progress-moves :
    (o : Option Pointer) (refs : List Str) (t : ℕ) (secs : ℤ) (crossed : Bool)
    → cur_idx o refs <ℤ pos t
    → next_progress o refs t secs crossed
      ≡ some (record { file = get_or refs t []; seconds = secs })
unfolding next_progress
next_progress-moves none refs t secs crossed h =
    let e : ltb_ℤ (cur_idx none refs) (pos t) ≡ true = ground (arith, h) in rw e refl
next_progress-moves (some p) refs t secs crossed h =
    let e : ltb_ℤ (cur_idx (some p) refs) (pos t) ≡ true = ground (arith, h) in rw e refl

-- The pointer can move back where two files have one reference: while it is on a file after the first
-- and before the second of them, a report of the second, not played to its end, puts it on the
-- first.
pub apply-back :
    (fl : Floats) (s : UserState) (refs : List Str) (j : ℕ) (r : Str) (position duration : fl.Float)
    → get_elem? refs j ≡ some r
    → index_of refs r <ℤ cur_idx s.progress refs
    → cur_idx s.progress refs <ℤ pos j
    → has_crossed fl position duration ≡ false
    → let new = (apply fl s refs (pos j) position duration).progress in
      (cur_idx new refs ≡ index_of refs r) × (cur_idx new refs <ℤ cur_idx s.progress refs)
unfolding apply report advance cur_idx
apply-back fl s refs j r position duration found after before c =
    let at = get_elem?-some refs j r found in
    let within : (ltb_ℤ (pos j) (pos 0) || leb_ℤ (pos (length refs)) (pos j)) ≡ false =
      ground (arith, at.0) in
    rw (within, c, next_progress-moves s.progress refs j (round fl position) false before, at.1)
      (refl, after)
