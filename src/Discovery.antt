-- ===== src/Discovery.antt =====
-- internal/server/discovery.go: the tracker of the running sweep, the sweep's own pass over the items
-- and the handlers that start one. Each method of the tracker holds its mutex and is one step. What
-- a sweep does to an item is not modelled but for the number of subtitles that it repairs, which is
-- none for an item that is no longer on the disk.
use file_fin.Prelude.{
  ℕ, suc, ◌+◌, ◌-◌, Bool, true, false, Option, none, some, List, [], ◌∷◌, ◌++◌, length, leb,
  if◌then◌else◌, Str, bytes,
}
pub mod Guard
pub mod Counting
pub mod Reconcile
pub mod Matches
pub mod Lost

abbrev pub discovery_batch : ℕ
discovery_batch = 64

abbrev pub sweep_rolling : Str
sweep_rolling = bytes "rolling batch"

abbrev pub sweep_full : Str
sweep_full = bytes "whole library"

pub record SweepState : Type 0 where
  pub scope : Str
  pub total : ℕ
  pub done_count : ℕ
  pub subtitles : ℕ
  pub running : Bool
  pub finished : Bool

abbrev pub no_sweep : SweepState
no_sweep = record {
  scope = [];
  total = 0;
  done_count = 0;
  subtitles = 0;
  running = false;
  finished = false;
}

-- The state after the call and its answer.
unfoldable pub begin : Str → ℕ → SweepState → SweepState × Bool
begin scope total st = if st.running then (st, false) else (
  record {
    scope = scope;
    total = total;
    done_count = 0;
    subtitles = 0;
    running = true;
    finished = false;
  },
  true,
)

unfoldable pub set_total : ℕ → SweepState → SweepState
set_total total st = record st { total = total }

unfoldable pub advance : ℕ → SweepState → SweepState
advance subtitles st = record st { done_count = suc st.done_count; subtitles = subtitles }

unfoldable pub done : SweepState → SweepState
done st = record st { finished = true; running = false }

abbrev pub repaired_with : ℕ → Option ℕ → ℕ
repaired_with repaired none = repaired
repaired_with repaired (some n) = repaired + n

abbrev pub checked_item : ℕ → Option ℕ → SweepState → SweepState
checked_item repaired none st = st
checked_item repaired (some n) st = advance (repaired + n) st

-- The loop over the items that are due: the context may be cancelled before each of them, and the
-- number of subtitles repaired is added up.
unfoldable pub check_items :
    (ℕ → Bool) → (Str → Option ℕ) → ℕ → ℕ → List Str → SweepState → SweepState
check_items cancelled repaired_in i repaired [] st = st
check_items cancelled repaired_in i repaired (id ∷ ids) st =
    let found = repaired_in id in
    let rest =
      check_items cancelled repaired_in (suc i) (repaired_with repaired found) ids
        (checked_item repaired found st) in
    if cancelled i then st else rest

-- What a sweep finds where it can end early: the database, the data folder, the folders on disk and
-- the items that are due.
pub record Surroundings : Type 0 where
  pub has_db : Bool
  pub data_dir : Str
  pub has_refs : Bool
  pub due : Option (List Str)
  pub repaired_in : Str → Option ℕ
  pub cancelled : ℕ → Bool

abbrev sweep_due : Surroundings → Option (List Str) → SweepState → SweepState
sweep_due s none st = st
sweep_due s (some ids) st =
    check_items s.cancelled s.repaired_in 0 0 ids (set_total (length ids) st)

abbrev has_text : Str → Bool
has_text [] = false
has_text (c ∷ s) = true

unfoldable pub sweep : Surroundings → SweepState → SweepState
unfolding check_items set_total done
sweep s st = done (
    if s.has_db
    then if has_text s.data_dir then if s.has_refs then sweep_due s s.due st else st else st
    else st)

-- A tick of the timer, or the button that runs discovery now.
unfoldable pub discovery_tick : Surroundings → SweepState → SweepState
unfolding begin sweep
discovery_tick s st =
    let claimed = begin sweep_rolling discovery_batch st in
    if claimed.1 then sweep s claimed.0 else st

pub data Answer : Type 0 where
  unavailable : Answer
  conflict : Str → Answer
  started : SweepState → Answer

-- The answer of `handleFullSweep` and the state that it leaves to the sweep in the background.
unfoldable pub handle_full_sweep : Bool → ℕ → SweepState → SweepState × Answer
unfolding begin
handle_full_sweep has_db on_disk st =
    let claimed = begin sweep_full on_disk st in
    if has_db
    then if claimed.1 then (claimed.0, started claimed.0) else (
      st,
      conflict (
          bytes "a "
          ++ (st.scope ++ bytes " sweep is already running; watch it on the Progress page")),
    )
    else (st, unavailable)
