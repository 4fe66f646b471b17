-- ===== src/State/Watched.antt =====
-- internal/state/engine.go: the watched flag, and the marks that the detail view derives.
use file_fin.Prelude.{
  ℕ, zero, suc, ◌+◌, ◌<◌, ◌≡◌, Bool, true, ◌&&◌, ◌||◌, Option, some, List, [], ◌∷◌, length,
  get_elem?, Str, Unique, ℤ, pos, pos_part, ltb_ℤ, leb_ℤ, eqb_ℤ, ◌≤ℤ◌, arith,
}
use file_fin.State.{
  Floats, Pointer, UserState, cur_idx, advance, report, apply, has_crossed, view, per_file_from,
}
use file_fin.State.Forward.{Ahead, kept, later_file, later_second, apply-Ahead}

module _ (fl : Floats) (s : UserState) (refs : List Str) where
  open fl use {Float}

  -- A report sets the watched flag exactly when it crosses the threshold in the last file of the
  -- list, never clears it, and leaves favorite, rating, subtitle and time stamp alone.
  pub watched-apply :
      (file_index : ℤ) (position duration : Float)
      → let t = apply fl s refs file_index position duration in
        (t.watched ≡ (
          s.watched
          || (leb_ℤ (pos 0) file_index
              && eqb_ℤ (pos (pos_part file_index + 1)) (pos (length refs))
              && has_crossed fl position duration)))
        × (t.favorite ≡ s.favorite)
        × (t.rating ≡ s.rating)
        × (t.subtitle ≡ s.subtitle)
        × (t.updated ≡ s.updated)
  unfolding apply report advance
  watched-apply file_index position duration = ground arith

get_elem?-per_file_from :
    (i : ℕ) (w : Bool) (ptr : ℤ) (refs : List Str) (k : ℕ)
    → k < length refs
    → get_elem? (per_file_from i w ptr refs) k ≡ some (w || ltb_ℤ (pos (i + k)) ptr)
unfolding per_file_from
get_elem?-per_file_from i w ptr [] k h = absurd (omega arith)
get_elem?-per_file_from i w ptr (r ∷ refs) zero h = ground arith
get_elem?-per_file_from i w ptr (r ∷ refs) (suc k) h =
    ground (arith, get_elem?-per_file_from (i + 1) w ptr refs k)

-- The marks of the detail view: one for each file, set for every file of a watched folder and else
-- for the files before the resume pointer.
pub get_elem?-view :
    (s : UserState) (refs : List Str) (k : ℕ)
    → k < length refs
    → get_elem? (view s refs).per_file k
      ≡ some (s.watched || ltb_ℤ (pos k) (cur_idx s.progress refs))
unfolding view
get_elem?-view s refs k h =
    ground (arith, get_elem?-per_file_from 0 s.watched (cur_idx s.progress refs) refs k)

Ahead-le :
    (refs : List Str) (old new : Option Pointer)
    → Ahead refs old new
    → cur_idx old refs ≤ℤ cur_idx new refs
Ahead-le refs old new (kept e) = rw e (omega arith)
Ahead-le refs old new (later_file h) = omega arith
Ahead-le refs old new (later_second p q e f g h) = rw g (omega arith)

module _ (fl : Floats) (s : UserState) (refs : List Str) (u : Unique refs) where
  open fl use {Float}

  -- A file that the detail view marks as watched stays marked after any report, if no two files of
  -- the list have the same reference.
  pub view-apply :
      (file_index : ℤ) (position duration : Float) (k : ℕ)
      → k < length refs
      → get_elem? (view s refs).per_file k ≡ some true
      → get_elem? (view (apply fl s refs file_index position duration) refs).per_file k ≡ some true
  view-apply file_index position duration k h seen =
      let t = apply fl s refs file_index position duration in
      let ahead =
        Ahead-le refs s.progress t.progress
          (apply-Ahead fl s refs u file_index position duration) in
      rw (get_elem?-view t refs k h, (watched-apply fl s refs file_index position duration).0)
        (ground (arith, ahead, get_elem?-view s refs k h))
