-- ===== src/State.antt =====
-- internal/state: the per-user playback state of a media folder (state.go, engine.go). Positions
-- and durations are float64; the engine compares, divides and rounds them through `Floats`, whose
-- laws nothing below needs.
use file_fin.Prelude.{
  ℕ, zero, suc, ◌+◌, ◌-◌, Bool, true, false, not, ◌&&◌, ◌||◌, Option, none, some, List, [], ◌∷◌,
  ltb, leb, ◌==◌, if◌then◌else◌, length, get_or, Str, str_eq, ℤ, pos, negsuc, pos_part, ltb_ℤ,
  leb_ℤ, eqb_ℤ,
}
pub mod Forward
pub mod Watched
pub mod Refs

-- The operations of float64 that `Apply` uses; `trunc` is the conversion to int.
pub record Floats : Type 1 where
  pub Float : Type 0
  pub zero_f : Float
  pub half : Float
  pub watched_threshold : Float
  pub lt : Float → Float → Bool
  pub le : Float → Float → Bool
  pub add : Float → Float → Float
  pub div : Float → Float → Float
  pub trunc : Float → ℤ

pub record Pointer : Type 0 where
  pub file : Str
  pub seconds : ℤ

pub record UserState : Type 0 where
  pub progress : Option Pointer
  pub watched : Bool
  pub favorite : Bool
  pub rating : ℤ
  pub subtitle : Str
  pub updated : ℤ

index_from : ℕ → List Str → Str → ℤ
index_from i [] ref = negsuc 0
index_from i (r ∷ refs) ref = if str_eq r ref then pos i else index_from (i + 1) refs ref

unfoldable pub index_of : List Str → Str → ℤ
unfolding index_from
index_of refs ref = index_from 0 refs ref

-- The index of the resume pointer, -1 with no progress or a file that is not in the list: the
-- `curIdx` of `Apply` and the `ptr` of `View`.
unfoldable pub cur_idx : Option Pointer → List Str → ℤ
unfolding index_of
cur_idx none refs = negsuc 0
cur_idx (some p) refs = index_of refs p.file

-- The last switch of `Apply`: what it leaves as the progress. Its second case reads the seconds of
-- the pointer, which is there when its index is not -1. A target index in range makes `get_or` the
-- slice access.
unfoldable pub next_progress : Option Pointer → List Str → ℕ → ℤ → Bool → Option Pointer
unfolding cur_idx
next_progress none refs target_idx target_seconds crossed =
    if ltb_ℤ (cur_idx none refs) (pos target_idx)
    then some (record { file = get_or refs target_idx []; seconds = target_seconds })
    else none
next_progress (some p) refs target_idx target_seconds crossed =
    if ltb_ℤ (cur_idx (some p) refs) (pos target_idx)
    then some (record { file = get_or refs target_idx []; seconds = target_seconds })
    else if eqb_ℤ (pos target_idx) (cur_idx (some p) refs)
        && not crossed
        && ltb_ℤ p.seconds target_seconds
    then some (record { file = get_or refs target_idx []; seconds = target_seconds })
    else some p

unfoldable pub advance : UserState → List Str → ℕ → ℤ → Bool → UserState
unfolding next_progress
advance s refs target_idx target_seconds crossed = record s {
  progress = next_progress s.progress refs target_idx target_seconds crossed;
}

-- `Apply` behind its bounds check, with the threshold tested and the position rounded.
unfoldable pub report : UserState → List Str → ℕ → Bool → ℤ → UserState
unfolding advance
report s refs file_index crossed seconds =
    if crossed
    then if file_index == (length refs - 1)
      then advance (record s { watched = true }) refs file_index seconds crossed
      else advance s refs (file_index + 1) (pos 0) crossed
    else advance s refs file_index seconds crossed

module _ (fl : Floats) where
  open fl use {Float, zero_f, half, watched_threshold, lt, le, add, div, trunc}

  unfoldable pub round : Float → ℤ
  round x = if lt x zero_f then pos 0 else trunc (add x half)

  unfoldable pub has_crossed : Float → Float → Bool
  has_crossed position duration = lt zero_f duration && le watched_threshold (div position duration)

  unfoldable pub apply : UserState → List Str → ℤ → Float → Float → UserState
  unfolding report round has_crossed
  apply s refs file_index position duration =
      if ltb_ℤ file_index (pos 0) || leb_ℤ (pos (length refs)) file_index
      then s
      else report s refs (pos_part file_index) (has_crossed position duration) (round position)

pub record WatchView : Type 0 where
  pub watched : Bool
  pub continue_index : ℤ
  pub continue_seconds : ℤ
  pub per_file : List Bool

-- The loop over `v.PerFile`, from index `i`.
per_file_from : ℕ → Bool → ℤ → List Str → List Bool
per_file_from i watched ptr [] = []
per_file_from i watched ptr (r ∷ refs) =
    (watched || ltb_ℤ (pos i) ptr) ∷ per_file_from (i + 1) watched ptr refs

-- `ptr` is not negative only where there is a progress to take the seconds from.
unfoldable pub view : UserState → List Str → WatchView
unfolding per_file_from
view s refs =
    let ptr = cur_idx s.progress refs in
    record {
      watched = s.watched;
      continue_index = if leb_ℤ (pos 0) ptr then ptr else pos 0;
      continue_seconds = elim s.progress [
        | none ↦ pos 0
        | some p ↦ if leb_ℤ (pos 0) ptr then p.seconds else pos 0
      ];
      per_file = per_file_from 0 s.watched ptr refs;
    }
