-- ===== src/Discovery/Guard.antt =====
-- internal/server/discovery.go: the tracker under any interleaving of ticks, presses of the button
-- and the sweeps that they start.
use file_fin.Prelude.{ℕ, suc, ◌+◌, ◌≡◌, refl, true, false, List, [], ◌∷◌, ◌++◌, Str, arith}
use file_fin.Discovery.{SweepState, no_sweep, begin, set_total, advance, done}

-- A sweep between its claim and its end, with what it has done itself.
pub record Sweep : Type 0 where
  pub scope : Str
  pub checked : ℕ
  pub repaired : ℕ

pub record World : Type 0 where
  pub tracker : SweepState
  pub sweeps : List Sweep

-- A claim starts a sweep only if it succeeds; the other calls are made by a sweep that runs.
pub data SweepStep : World → World → Type 0 where
  claims :
      (w : World) (scope : Str) (total : ℕ)
      → (begin scope total w.tracker).1 ≡ true
      → SweepStep w (record {
        tracker = (begin scope total w.tracker).0;
        sweeps = record { scope = scope; checked = 0; repaired = 0 } ∷ w.sweeps;
      })
  refused :
      (w : World) (scope : Str) (total : ℕ)
      → (begin scope total w.tracker).1 ≡ false
      → SweepStep w (record w { tracker = (begin scope total w.tracker).0 })
  counts :
      (t : SweepState) (before after : List Sweep) (s : Sweep) (total : ℕ)
      → SweepStep
          (record { tracker = t; sweeps = before ++ s ∷ after })
          (record { tracker = set_total total t; sweeps = before ++ s ∷ after })
  checks :
      (t : SweepState) (before after : List Sweep) (s : Sweep) (n : ℕ)
      → SweepStep
          (record { tracker = t; sweeps = before ++ s ∷ after })
          (record {
            tracker = advance (s.repaired + n) t;
            sweeps =
                before ++ record s { checked = suc s.checked; repaired = s.repaired + n } ∷ after;
          })
  ends :
      (t : SweepState) (before after : List Sweep) (s : Sweep)
      → SweepStep
          (record { tracker = t; sweeps = before ++ s ∷ after })
          (record { tracker = done t; sweeps = before ++ after })

pub data Reach : World → Type 0 where
  start : Reach (record { tracker = no_sweep; sweeps = [] })
  next : (w w' : World) → Reach w → SweepStep w w' → Reach w'

-- The tracker stands for the one sweep that runs, or none runs and it can be claimed.
abbrev pub Describes : SweepState → List Sweep → Type 0
Describes t [] = t.running ≡ false
Describes t (s ∷ []) =
    (t.running ≡ true)
    × (t.finished ≡ false)
    × (t.scope ≡ s.scope)
    × (t.done_count ≡ s.checked)
    × (t.subtitles ≡ s.repaired)
Describes t (s ∷ r ∷ rest) = ⊥

begin-refused :
    (scope : Str) (total : ℕ) (t : SweepState)
    → (begin scope total t).1 ≡ false
    → (begin scope total t).0 ≡ t
unfolding begin
begin-refused scope total t e = ground arith

SweepStep-Describes :
    (w w' : World) → SweepStep w w' → Describes w.tracker w.sweeps → Describes w'.tracker w'.sweeps
unfolding set_total advance done
SweepStep-Describes u u' (claims w scope total e) h = claimed scope total w.tracker w.sweeps e h
  where
    claimed :
        (scope : Str) (total : ℕ) (t : SweepState) (sweeps : List Sweep)
        → (begin scope total t).1 ≡ true
        → Describes t sweeps
        → Describes
            (begin scope total t).0
            (record { scope = scope; checked = 0; repaired = 0 } ∷ sweeps)
    claimed scope total t [] e h = unfold begin in rw h (refl, refl, refl, refl, refl)
    claimed scope total t (s ∷ []) e h = absurd (unfold begin in ground (arith, e, h.0))
    claimed scope total t (s ∷ r ∷ rest) e h = absurd h
SweepStep-Describes u u' (refused w scope total e) h = rw (begin-refused scope total w.tracker e) h
SweepStep-Describes u u' (counts t [] [] s total) h = h
SweepStep-Describes u u' (counts t [] (r ∷ after) s total) h = absurd h
SweepStep-Describes u u' (counts t (b ∷ []) after s total) h = absurd h
SweepStep-Describes u u' (counts t (b ∷ c ∷ before) after s total) h = absurd h
SweepStep-Describes u u' (checks t [] [] s n) h = ground arith
SweepStep-Describes u u' (checks t [] (r ∷ after) s n) h = absurd h
SweepStep-Describes u u' (checks t (b ∷ []) after s n) h = absurd h
SweepStep-Describes u u' (checks t (b ∷ c ∷ before) after s n) h = absurd h
SweepStep-Describes u u' (ends t [] [] s) h = refl
SweepStep-Describes u u' (ends t [] (r ∷ after) s) h = absurd h
SweepStep-Describes u u' (ends t (b ∷ []) after s) h = absurd h
SweepStep-Describes u u' (ends t (b ∷ c ∷ before) after s) h = absurd h

-- Whatever the order in which ticks, presses of the button and running sweeps call the tracker, at
-- most one sweep runs; the tracker is claimed exactly while one does, and shows that sweep's own
-- scope, the number of items that it has checked and the subtitles that it has repaired.
pub Reach-Describes : (w : World) → Reach w → Describes w.tracker w.sweeps
Reach-Describes v start = refl
Reach-Describes v (next u w r s) = SweepStep-Describes u w s (Reach-Describes u r)
