-- ===== src/Tests/Playback.antt =====
-- Tests of the playback engine (internal/state/engine.go). Times are whole milliseconds.
use file_fin.Prelude.{
  ℕ, ◌*◌, ◌/◌, ◌+◌, ◌≡◌, ◌≢◌, refl, true, false, ◌||◌, ◌&&◌, some, List, [], ◌∷◌, length, get_elem?,
  Str, str_eq, bytes, contains, ltb, leb, pos, pos_part, ltb_ℤ, leb_ℤ, eqb_ℤ, ◌<ℤ◌, ◌≤ℤ◌, arith,
}
use file_fin.State.{Floats, UserState, cur_idx, index_of, apply, has_crossed, view}
use file_fin.State.Refs.{FileKey, refs_of, refs_of-apart}
use file_fin.State.Forward.{Ahead, apply-Ahead, apply-reaches, apply-back}
use file_fin.State.Watched.{watched-apply, get_elem?-view, view-apply}

abbrev millis : Floats
millis = record {
  Float = ℕ;
  zero_f = 0;
  half = 500;
  watched_threshold = 900;
  lt = ltb;
  le = leb;
  add = λ a b. a + b;
  div = λ a b. a * 1000 / b;
  trunc = λ a. pos (a / 1000);
}

abbrev refs : List Str
refs = bytes "1x1" ∷ bytes "1x2" ∷ bytes "1x3" ∷ []

abbrev started : UserState
started = record {
  progress = some (record { file = bytes "1x2"; seconds = pos 40 });
  watched = false;
  favorite = true;
  rating = pos 7;
  subtitle = [];
  updated = pos 0;
}

-- The second episode played to 95% puts the pointer on the third.
crossed_moves_on :
    (apply millis started refs (pos 1) 950 1000).progress
    ≡ some (record { file = bytes "1x3"; seconds = pos 0 })
unfolding apply cur_idx str_eq
crossed_moves_on = refl

apply-Ahead_example :
    Ahead refs started.progress (apply millis started refs (pos 1) 950 1000).progress
unfolding contains str_eq
apply-Ahead_example = apply-Ahead millis started refs (refl, (refl, (refl, tt))) (pos 1) 950 1000

apply-reaches_example : pos 2 ≤ℤ cur_idx (apply millis started refs (pos 2) 300 1000).progress refs
unfolding contains str_eq
apply-reaches_example =
    apply-reaches millis started refs (refl, (refl, (refl, tt))) 2 300 1000 (omega arith)

watched-apply_example :
    let t = apply millis started refs (pos 2) 950 1000 in
    (t.watched ≡ (
      started.watched
      || (leb_ℤ (pos 0) (pos 2)
          && eqb_ℤ (pos (pos_part (pos 2) + 1)) (pos (length refs))
          && has_crossed millis 950 1000)))
    × (t.favorite ≡ started.favorite)
    × (t.rating ≡ started.rating)
    × (t.subtitle ≡ started.subtitle)
    × (t.updated ≡ started.updated)
watched-apply_example = watched-apply millis started refs (pos 2) 950 1000

get_elem?-view_example :
    get_elem? (view started refs).per_file 0
    ≡ some (started.watched || ltb_ℤ (pos 0) (cur_idx started.progress refs))
get_elem?-view_example = get_elem?-view started refs 0 (omega arith)

view-apply_example :
    get_elem? (view (apply millis started refs (pos 0) 10 1000) refs).per_file 0 ≡ some true
unfolding contains str_eq view cur_idx
view-apply_example =
    view-apply millis started refs (refl, (refl, (refl, tt))) (pos 0) 10 1000 0 (omega arith) refl

-- Two parts of one episode, with the next episode listed between them.
abbrev doubled : List Str
doubled = bytes "1x1" ∷ bytes "1x2" ∷ bytes "1x1" ∷ []

apply-back_example :
    let new = (apply millis started doubled (pos 2) 300 1000).progress in
    (cur_idx new doubled ≡ index_of doubled (bytes "1x1"))
    × (cur_idx new doubled <ℤ cur_idx started.progress doubled)
unfolding has_crossed index_of cur_idx str_eq
apply-back_example =
    apply-back millis started doubled 2 (bytes "1x1") 300 1000 refl (omega arith) (omega arith) refl

abbrev parts : List FileKey
parts =
    record { season = pos 0; episode = pos 0 }
    ∷ record { season = pos 1; episode = pos 2 }
    ∷ record { season = pos 0; episode = pos 3 }
    ∷ []

refs_of-apart_example : get_elem? (refs_of parts) 0 ≢ get_elem? (refs_of parts) 2
refs_of-apart_example =
    refs_of-apart parts 0 2 (record { season = pos 0; episode = pos 0 })
      (record { season = pos 0; episode = pos 3 }) refl refl refl refl (λ e. ground (arith, e))
