-- ===== src/Optimize.antt =====
-- internal/optimize/optimize.go: the files that need an optimized copy, and the progress that is
-- read from ffmpeg. The percent that an `out_time` stands for is computed in float64 and is a
-- parameter.
use file_fin.Prelude.{
  ℕ, suc, Bool, true, false, not, ◌&&◌, ◌||◌, Option, none, some, List, [], ◌∷◌, ltb, leb, ◌==◌,
  if◌then◌else◌, Str, bytes, str_eq, ℤ, pos, negsuc, ltb_ℤ, leb_ℤ, eqb_ℤ,
}
use file_fin.Strings.{trim_space, parse_int, cut_at}
use file_fin.Playable.{
  MediaFile, Streams, direct_playable, needs_transcode, remux_eligible, optimized_sibling,
}
pub mod Choice
pub mod Percent

pub record Candidate : Type 0 where
  pub media_id : Str
  pub file_idx : ℕ
  pub source : Str
  pub optimized : Str

unfoldable pub probed : MediaFile → Bool
probed f = not (str_eq f.container []) && not (str_eq f.video_codec [])

unfoldable pub file_needs_transcode : MediaFile → Bool
unfolding probed
file_needs_transcode f =
    if probed f
    then not (direct_playable f.container f.video_codec f.audio_codec)
    else needs_transcode f.file_ext

unfoldable pub file_remux_eligible : MediaFile → Bool
unfolding probed
file_remux_eligible f =
    if not (probed f)
    then false
    else remux_eligible
        (record { video_codec = f.video_codec; audio_codec = f.audio_codec; duration = 0 })

abbrev candidate : MediaFile → Str → Candidate
candidate f opt = record {
  media_id = f.media_id;
  file_idx = f.idx;
  source = f.path;
  optimized = opt;
}

unfoldable pub candidates : (Str → Option ℕ) → List MediaFile → List Candidate
unfolding file_needs_transcode file_remux_eligible
candidates stat [] = []
candidates stat (f ∷ files) =
    let rest = candidates stat files in
    let sibling = optimized_sibling stat f.path in
    if not (file_needs_transcode f) || file_remux_eligible f
    then rest
    else if sibling.1
    then rest
    else candidate f sibling.0 ∷ rest

-- `scanProgress` passes a line on as one of three events; the others change nothing.
pub data EncodeLine : Type 0 where
  out_time : ℤ → EncodeLine
  finished : EncodeLine
  other : EncodeLine

abbrev time_line : Option ℤ → EncodeLine
time_line none = other
time_line (some us) = out_time us

abbrev read_pair : Option (Str × Str) → EncodeLine
read_pair none = other
read_pair (some (key, val)) =
    if str_eq key (bytes "out_time_ms") || str_eq key (bytes "out_time_us")
    then time_line (parse_int val)
    else if str_eq key (bytes "progress") && str_eq val (bytes "end")
    then finished
    else other

unfoldable pub read_line : Str → EncodeLine
read_line text = read_pair (cut_at b'=' (trim_space text))

unfoldable pub clamp_percent : ℤ → ℤ
clamp_percent pct =
    let pct' = if ltb_ℤ pct (pos 0) then pos 0 else pct in
    if ltb_ℤ (pos 100) pct' then pos 100 else pct'

-- The percent last given to `onProgress`, and what a line gives to it.
unfoldable pub progress_step : (ℤ → ℤ → ℤ) → ℤ → ℤ → EncodeLine → Option ℤ
unfolding clamp_percent
progress_step percent duration last other = none
progress_step percent duration last finished = if eqb_ℤ last (pos 100) then none else some (pos 100)
progress_step percent duration last (out_time us) =
    let pct = clamp_percent (percent us duration) in
    if leb_ℤ duration (pos 0) then none else if eqb_ℤ pct last then none else some pct

abbrev pub last_percent : ℤ → Option ℤ → ℤ
last_percent last none = last
last_percent last (some pct) = pct

abbrev pub report : Option ℤ → List ℤ → List ℤ
report none rest = rest
report (some pct) rest = pct ∷ rest

unfoldable pub scan_from : (ℤ → ℤ → ℤ) → ℤ → ℤ → List Str → List ℤ
unfolding progress_step read_line
scan_from percent duration last [] = []
scan_from percent duration last (text ∷ lines) =
    let step = progress_step percent duration last (read_line text) in
    report step (scan_from percent duration (last_percent last step) lines)

-- The calls of `onProgress` while the lines are read.
unfoldable pub scan_progress : (ℤ → ℤ → ℤ) → ℤ → List Str → List ℤ
unfolding scan_from
scan_progress percent duration lines = scan_from percent duration (negsuc 0) lines
