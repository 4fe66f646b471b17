-- ===== src/Transcode/Sessions.antt =====
-- internal/transcode/hls.go: the table of sessions with what they hold outside of it, the temporary
-- folders on disk and the encoder runs that are not cancelled. A session stands in the store for good,
-- and a pointer to it is its place there, so a request can go on with one that has left the table.
-- `ensure` looks the key up, works without the lock, publishes, and discards its own session where
-- another was published first, so it is four steps; `Segment` is two, `touch` and then
-- `maybe_reposition` with the pointer that it found. Times are nanoseconds. What a run writes is not
-- modelled: the names in a folder are an argument.
use file_fin.Prelude.{
  ℕ, ◌-◌, ◌*◌, Bool, true, false, not, Option, none, some, List, [], ◌∷◌, ◌++◌, get_elem?, set, any,
  keep, length, ltb, ◌==◌, if◌then◌else◌, Str, str_eq, Map, lookup, insert, sweep,
}
use file_fin.Playable.{Streams, remux_eligible}
use file_fin.Transcode.{remux_plan, reposition_target, highest_seg}

abbrev pub session_idle_timeout : ℕ
session_idle_timeout = 60 * 1000000000

pub record Session : Type 0 where
  pub dir : Str
  pub input_path : Str
  pub title : Str
  pub remux : Bool
  pub duration : ℕ
  pub segments : Option (List ℕ)
  pub stall_noted : Bool
  pub start_seg : ℕ
  pub run : ℕ
  pub last_access : ℕ

-- The table holds pointers, and so do the requests: one that they have not published yet (`held`), or
-- that they are about to discard (`losers`). `late` are the runs started for a session that was not
-- in the table any more.
pub record Manager : Type 0 where
  pub store : List Session
  pub sessions : Map ℕ
  pub held : List ℕ
  pub losers : List ℕ
  pub late : List ℕ
  pub dirs : List Str
  pub runs : List ℕ

abbrev pub values : Map ℕ → List ℕ
values [] = []
values ((key, i) ∷ m) = i ∷ values m

-- Whether the session behind a pointer has a property.
abbrev pub has : (Session → Bool) → Option Session → Bool
has p none = false
has p (some s) = p s

abbrev pub at : (Session → Bool) → List Session → ℕ → Bool
at p store i = has p (get_elem? store i)

unfoldable pub active_sessions : Manager → ℕ
active_sessions m = length m.sessions

-- A run is cancelled and a folder removed for each session of a list.
unfoldable pub release : List ℕ → Manager → Manager
release gone m = record m {
  dirs = keep (λ d. not (any (at (λ s. str_eq s.dir d) m.store) gone)) m.dirs;
  runs = keep (λ r. not (any (at (λ s. s.run == r) m.store) gone)) m.runs;
}

abbrev planned : Option (List ℕ) → Bool
planned none = false
planned (some segments) = true

unfoldable pub make_session : Str → Str → Streams → Option (List ℕ) → Str → ℕ → ℕ → Session
make_session input_path title streams keyframes dir run now =
    let segments = if remux_eligible streams then remux_plan keyframes streams.duration else none in
    record {
      dir = dir;
      input_path = input_path;
      title = title;
      remux = planned segments;
      duration = streams.duration;
      segments = segments;
      stall_noted = false;
      start_seg = 0;
      run = run;
      last_access = now;
    }

-- The second part of `ensure`: the answers of ffprobe, of MkdirTemp and of the start of ffmpeg, none
-- where they fail. A folder made for an encoder that does not start is removed again.
unfoldable pub prepare :
    Str → Str → Option Streams → Option (List ℕ) → Option Str → Option ℕ → ℕ → Manager → Manager
unfolding make_session
prepare input_path title none keyframes dir run now m = m
prepare input_path title (some streams) keyframes none run now m = m
prepare input_path title (some streams) keyframes (some d) none now m = record m {
  dirs = keep (λ x. not (str_eq d x)) (d ∷ m.dirs);
}
prepare input_path title (some streams) keyframes (some d) (some r) now m = record m {
  store = m.store ++ make_session input_path title streams keyframes d r now ∷ [];
  held = length m.store ∷ m.held;
  dirs = d ∷ m.dirs;
  runs = r ∷ m.runs;
}

abbrev pub publish_over : Str → ℕ → Option ℕ → Manager → Manager
publish_over key i none m = record m { sessions = insert key i m.sessions }
publish_over key i (some existing) m = record m { losers = i ∷ m.losers }

-- The third part of `ensure`, under the lock: the session that was published first stays.
unfoldable pub publish : Str → ℕ → Manager → Manager
publish key i m = publish_over key i (lookup key m.sessions) m

abbrev pub touch_found : ℕ → ℕ → Option Session → Manager → Manager
touch_found i now none m = m
touch_found i now (some s) m = record m { store = set m.store i (record s { last_access = now }) }

-- `lastAccess` of the session behind a pointer.
unfoldable pub touch_at : ℕ → ℕ → Manager → Manager
touch_at i now m = touch_found i now (get_elem? m.store i) m

abbrev pub touch_key : ℕ → Option ℕ → Manager → Manager
touch_key now none m = m
touch_key now (some i) m = touch_at i now m

-- The first part of `ensure` and of `Segment`. They go on with the pointer of the key.
unfoldable pub touch : Str → ℕ → Manager → Manager
unfolding touch_at
touch key now m = touch_key now (lookup key m.sessions) m

-- The end of `ensure` for a session that came second, after the unlock. Only this request has a
-- pointer to it.
unfoldable pub discard : ℕ → ℕ → ℕ → Manager → Manager
unfolding release touch_at
discard i existing now m = touch_at existing now (release (i ∷ []) m)

unfoldable pub in_table : ℕ → Manager → Bool
in_table i m = any (λ j. j == i) (values m.sessions)

abbrev pub relaunch : ℕ → Session → Option ℕ → Option ℕ → Manager → Manager
relaunch i s none run m = m
relaunch i s (some target) none m = m
relaunch i s (some target) (some r) m = record m {
  store = set m.store i (record s { run = r; start_seg = target });
  runs = r ∷ keep (λ x. not (s.run == x)) m.runs;
  late = if in_table i m then m.late else r ∷ m.late;
}

abbrev pub reposition_found : ℕ → ℕ → List Str → Option ℕ → Option Session → Manager → Manager
reposition_found i n names run none m = m
reposition_found i n names run (some s) m =
    if s.remux
    then m
    else relaunch i s (reposition_target s.start_seg (highest_seg names s.start_seg) n) run m

-- `maybeReposition` for the session behind a pointer, whether it is still in the table or not; `run`
-- is the new encoder, none where it does not start.
unfoldable pub maybe_reposition : ℕ → ℕ → List Str → Option ℕ → Manager → Manager
unfolding in_table
maybe_reposition i n names run m = reposition_found i n names run (get_elem? m.store i) m

unfoldable pub idle : ℕ → Session → Bool
idle now s = ltb session_idle_timeout (now - s.last_access)

-- One tick of the reaper.
unfoldable pub reap : ℕ → Manager → Manager
unfolding idle release
reap now m =
    release (keep (at (idle now) m.store) (values m.sessions))
      (record m { sessions = sweep (at (idle now) m.store) m.sessions })

unfoldable pub close : Manager → Manager
unfolding release
close m = release (values m.sessions) (record m { sessions = [] })
