-- ===== src/Tests/Sessions.antt =====
-- Tests of the sessions of internal/transcode/hls.go.
use file_fin.Prelude.{ℕ, ◌≡◌, refl, false, none, some, [], ◌∷◌, Str, bytes, str_eq}
use file_fin.Playable.{Streams, remux_eligible}
use file_fin.Transcode.{remux_plan}
use file_fin.Transcode.Sessions.{Session, Manager, make_session, prepare}

abbrev streams : Streams
streams = record { video_codec = bytes "hevc"; audio_codec = bytes "aac"; duration = 12000 }

abbrev made : Str → ℕ → Session
made dir run = record {
  dir = dir;
  input_path = bytes "/f/a.mkv";
  title = bytes "A";
  remux = false;
  duration = 12000;
  segments = none;
  stall_noted = false;
  start_seg = 0;
  run = run;
  last_access = 5;
}

abbrev session_1 : Session
session_1 = made (bytes "/tmp/1") 1

abbrev session_2 : Session
session_2 = made (bytes "/tmp/2") 2

-- Two requests for one key, each with an encoder before either has published.
abbrev one : Manager
one = record {
  store = session_1 ∷ [];
  sessions = [];
  held = 0 ∷ [];
  losers = [];
  late = [];
  dirs = bytes "/tmp/1" ∷ [];
  runs = 1 ∷ [];
}

abbrev two : Manager
two = record {
  store = session_1 ∷ session_2 ∷ [];
  sessions = [];
  held = 1 ∷ 0 ∷ [];
  losers = [];
  late = [];
  dirs = bytes "/tmp/2" ∷ bytes "/tmp/1" ∷ [];
  runs = 2 ∷ 1 ∷ [];
}

prepared :
    prepare
      (bytes "/f/a.mkv")
      (bytes "A")
      (some streams)
      none
      (some (bytes "/tmp/2"))
      (some 2)
      5
      one
    ≡ two
unfolding prepare make_session remux_eligible remux_plan str_eq
prepared = refl

abbrev first_published : Manager
first_published = record two { sessions = (bytes "k", 0) ∷ []; held = 1 ∷ [] }

abbrev both_published : Manager
both_published = record first_published { held = []; losers = 1 ∷ [] }

abbrev discarded : Manager
discarded = record both_published {
  store = record session_1 { last_access = 9 } ∷ session_2 ∷ [];
  losers = [];
  dirs = bytes "/tmp/1" ∷ [];
  runs = 1 ∷ [];
}

abbrev closed : Manager
closed = record discarded { sessions = []; dirs = []; runs = [] }

-- A request that had the pointer before the table was emptied starts an encoder after it.
abbrev sought : Manager
sought = record closed {
  store = record session_1 { last_access = 9; run = 7; start_seg = 500 } ∷ session_2 ∷ [];
  late = 7 ∷ [];
  runs = 7 ∷ [];
}
