-- ===== src/Transcode/Leaks.antt =====
-- internal/transcode/hls.go: every temporary folder and every encoder run has a session that ends it.
use file_fin.Prelude.{ℕ, Option, List, [], ◌∷◌, ◌++◌, Str}
use file_fin.Playable.{Streams}
use file_fin.Transcode.Sessions.{
  Manager, prepare, publish, touch, discard, maybe_reposition, reap, close,
}

-- One step of the manager, by whichever request, tick or end of the program it is made. A request
-- that goes on may have the pointer of any session, and finds any names in its folder.
pub data SessionStep : Manager → Manager → Type 0 where
  prepares :
      (m : Manager) (input_path title : Str) (streams : Option Streams)
      (keyframes : Option (List ℕ)) (dir : Option Str) (run : Option ℕ) (now : ℕ)
      → SessionStep m (prepare input_path title streams keyframes dir run now m)
  publishes :
      (m : Manager) (before after : List ℕ) (i : ℕ) (key : Str)
      → SessionStep
          (record m { held = before ++ i ∷ after })
          (publish key i (record m { held = before ++ after }))
  discards :
      (m : Manager) (before after : List ℕ) (i existing now : ℕ)
      → SessionStep
          (record m { losers = before ++ i ∷ after })
          (discard i existing now (record m { losers = before ++ after }))
  touches : (m : Manager) (key : Str) (now : ℕ) → SessionStep m (touch key now m)
  repositions :
      (m : Manager) (i n : ℕ) (names : List Str) (run : Option ℕ)
      → SessionStep m (maybe_reposition i n names run m)
  reaps : (m : Manager) (now : ℕ) → SessionStep m (reap now m)
  closes : (m : Manager) → SessionStep m (close m)

abbrev pub new_manager : Manager
new_manager = record {
  store = [];
  sessions = [];
  held = [];
  losers = [];
  late = [];
  dirs = [];
  runs = [];
}

pub data Running : Manager → Type 0 where
  start : Running new_manager
  next : (m m' : Manager) → Running m → SessionStep m m' → Running m'
