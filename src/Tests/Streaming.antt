-- ===== src/Tests/Streaming.antt =====
-- Tests of the segments and the playlist of internal/transcode/hls.go, and of
-- internal/optimize/optimize.go.
use file_fin.Prelude.{
  ℕ, ◌+◌, ◌*◌, ◌≤◌, ◌≡◌, refl, arith, true, none, some, Option, List, [], ◌∷◌, ◌++◌, any, All, sum,
  get_elem?, Str, bytes, str_eq, contains, pos, negsuc, ℤ, pos_part, neg_part,
}
use file_fin.Strings.{
  itoa, atoi, parse_from, is_digit, all_digits, split, trim_space, trim_left, trim_right, is_space,
  cut_at, parse_int,
}
use file_fin.Strings.Paths.{has_suffix, cut_prefix, trim_suffix, to_lower}
use file_fin.Transcode.{
  grid_segments, grid_count, remux_segments, remux_cuts, ceil_seconds, target_duration,
  raise_target, format_seconds, segment_file, entries_from, write_entries, playlist_segments,
  build_playlist, segment_name, has_number, seg_index, reposition_target, reposition_lead,
  highest_seg, raise_highest, clock,
}
use file_fin.Transcode.Playlist.{Late, ends, Reached, sum-remux_segments, target_duration_bounds}
use file_fin.Transcode.Names.{seg_index-entry}
use file_fin.Transcode.Reposition.{served_from, reposition_target-reach, reposition_target-stale}
use file_fin.Playable.{
  MediaFile, container_in, direct_playable, remux_eligible, needs_transcode, optimized_sibling,
}
use file_fin.Playable.Direct.{direct_playable_comm}
use file_fin.Optimize.{
  candidates, scan_progress, scan_from, progress_step, read_line, clamp_percent, probed,
  file_needs_transcode, file_remux_eligible,
}
use file_fin.Optimize.Choice.{Needed, candidates-Needed, candidates-settled}
use file_fin.Optimize.Percent.{Moving, IsPercent, scan_progress-bounds}

-- internal/transcode/hls_test.go
grid_13 : grid_segments 13500 ≡ 6000 ∷ 6000 ∷ 1500 ∷ []
unfolding grid_segments grid_count
grid_13 = refl

grid_unknown : grid_segments 0 ≡ 6000 ∷ []
unfolding grid_segments grid_count
grid_unknown = refl

remux_sparse :
    remux_segments 0 (10000 ∷ 20000 ∷ 30000 ∷ []) 35000 ≡ 10000 ∷ 10000 ∷ 10000 ∷ 5000 ∷ []
unfolding remux_segments remux_cuts
remux_sparse = refl

playlist_short :
    build_playlist 7500 none
    ≡ bytes "#EXTM3U\n#EXT-X-VERSION:3\n#EXT-X-TARGETDURATION:6\n#EXT-X-MEDIA-SEQUENCE:0\n"
      ++ bytes
          "#EXT-X-PLAYLIST-TYPE:VOD\n#EXTINF:6.000,\nseg0.ts\n#EXTINF:1.500,\nseg1.ts\n#EXT-X-ENDLIST\n"
unfolding build_playlist playlist_segments grid_segments grid_count target_duration raise_target
    ceil_seconds itoa write_entries entries_from segment_file format_seconds
playlist_short = refl

clock_long : clock 3725 ≡ bytes "1:02:05"
unfolding clock itoa
clock_long = refl

sum-remux_segments_example :
    (sum (remux_segments 500 (9000 ∷ 14000 ∷ []) 16000) ≡ 16000)
    × Late 500 0 (ends 500 (remux_cuts 500 500 0 (9000 ∷ 14000 ∷ [])).0)
sum-remux_segments_example =
    sum-remux_segments 500 (9000 ∷ 14000 ∷ []) 16000 (omega arith, (omega arith, tt))
      (unfold remux_cuts in omega arith)

target_duration_bounds_example :
    (6 ≤ target_duration (6000 ∷ 10010 ∷ []))
    × All (λ d. d ≤ 1000 * target_duration (6000 ∷ 10010 ∷ [])) (6000 ∷ 10010 ∷ [])
    × Reached 6 (target_duration (6000 ∷ 10010 ∷ [])) (6000 ∷ 10010 ∷ [])
target_duration_bounds_example = target_duration_bounds (6000 ∷ 10010 ∷ [])

seg_index-entry_example :
    (name : Str) × (get_elem? (entries_from 0 (6000 ∷ 1500 ∷ [])) 1 ≡ some (1500, name))
    × (segment_name name ≡ true)
    × (seg_index name ≡ 1)
seg_index-entry_example = seg_index-entry (6000 ∷ 1500 ∷ []) 1 1500 refl

abbrev on_disk : List Str
on_disk = bytes "seg100.ts" ∷ bytes "seg510.ts" ∷ bytes "index.m3u8" ∷ []

highest_on_disk : highest_seg on_disk 100 ≡ pos 510
unfolding highest_seg raise_highest segment_name has_number seg_index has_suffix trim_suffix
    all_digits is_digit atoi parse_from cut_prefix str_eq
highest_on_disk = refl

reposition_target-reach_example :
    let start' = served_from 100 (reposition_target 100 (highest_seg on_disk 100) 900) in
    let highest = highest_seg on_disk start' in
    (start' ≤ 900) × (900 + neg_part highest ≤ pos_part highest + reposition_lead)
reposition_target-reach_example = reposition_target-reach on_disk 100 900

reposition_target-stale_example : reposition_target 100 (highest_seg on_disk 100) 400 ≡ none
unfolding segment_name has_number seg_index has_suffix trim_suffix all_digits is_digit atoi
    parse_from cut_prefix str_eq
reposition_target-stale_example =
    reposition_target-stale on_disk 100 400 1 (bytes "seg510.ts") refl refl (omega arith)
      (omega arith)

direct_playable_comm_example :
    direct_playable (bytes "mov,mp4,m4a") (bytes "H264") (bytes "aac")
    ≡ direct_playable (bytes "mp4,m4a,mov") (bytes "H264") (bytes "aac")
direct_playable_comm_example =
    direct_playable_comm (bytes "mov") (bytes "mp4,m4a") (bytes "H264") (bytes "aac")

plays_mp4 : direct_playable (bytes "mov,mp4,m4a") (bytes "H264") (bytes "aac") ≡ true
unfolding direct_playable container_in to_lower remux_eligible split trim_space trim_left trim_right
    is_space contains str_eq any
plays_mp4 = refl

abbrev old_avi : MediaFile
old_avi = record {
  media_id = bytes "m";
  idx = 0;
  path = bytes "/f/a.avi";
  name = bytes "a.avi";
  season = 0;
  episode = 0;
  file_ext = bytes ".avi";
  container = [];
  video_codec = [];
  audio_codec = [];
}

abbrev empty_disk : Str → Option ℕ
empty_disk path = none

candidates-Needed_example : All (Needed (old_avi ∷ [])) (candidates empty_disk (old_avi ∷ []))
candidates-Needed_example = candidates-Needed empty_disk (old_avi ∷ [])

abbrev done_disk : Str → Option ℕ
done_disk path = some 5

candidates-settled_example : candidates done_disk (old_avi ∷ []) ≡ []
unfolding optimized_sibling candidates file_needs_transcode file_remux_eligible probed str_eq
    needs_transcode contains
candidates-settled_example =
    candidates-settled empty_disk done_disk (old_avi ∷ []) (refl, tt) ((λ e. refl), tt)

abbrev percent : ℤ → ℤ → ℤ
percent (pos us) (pos duration) = pos us
percent us duration = us

scan_percents :
    scan_progress percent (pos 10) (
      bytes "out_time_ms=20" ∷ bytes "frame=3" ∷ bytes "out_time_us=20" ∷ bytes "progress=end" ∷ [])
    ≡ pos 20 ∷ pos 100 ∷ []
unfolding scan_progress scan_from progress_step read_line clamp_percent cut_at parse_int parse_from
    is_digit trim_space trim_left trim_right is_space str_eq
scan_percents = refl

scan_progress-bounds_example :
    All IsPercent (scan_progress percent (pos 10) (bytes "out_time_ms=700" ∷ []))
    × Moving (negsuc 0) (scan_progress percent (pos 10) (bytes "out_time_ms=700" ∷ []))
scan_progress-bounds_example = scan_progress-bounds percent (pos 10) (bytes "out_time_ms=700" ∷ [])
