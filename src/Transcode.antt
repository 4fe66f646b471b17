-- ===== src/Transcode.antt =====
-- internal/transcode/hls.go: the segments of a session, their names, the playlist that lists them
-- and the decision to relaunch the encoder. A duration is a whole number of milliseconds, which is
-- what the playlist prints; a duration of 0 is one that ffprobe did not give. Key frames come in
-- the order of their times.
use file_fin.Prelude.{
  ℕ, zero, suc, ◌+◌, ◌-◌, ◌*◌, ◌/◌, ◌%◌, max, Bool, true, false, not, ◌&&◌, ◌||◌, Option, none,
  some, List, [], ◌∷◌, ◌++◌, ltb, leb, if◌then◌else◌, length, replicate, set, take, drop, Str,
  bytes, str_eq, ℤ, pos, negsuc, pos_part, neg_part,
}
use file_fin.Strings.{itoa, atoi, all_digits}
use file_fin.Strings.Paths.{cut_prefix, has_suffix, trim_suffix}
pub mod Playlist
pub mod Names
pub mod Reposition
pub mod Sessions
pub mod Held
pub mod Leaks

abbrev pub segment_seconds : ℕ
segment_seconds = 6

abbrev pub reposition_lead : ℕ
reposition_lead = 3

abbrev pub segment_millis : ℕ
segment_millis = segment_seconds * 1000

-- The number of segments of the fixed grid.
unfoldable pub grid_count : ℕ → ℕ
grid_count duration = max 1 ((duration + (segment_millis - 1)) / segment_millis)

unfoldable pub grid_segments : ℕ → List ℕ
unfolding grid_count
grid_segments duration =
    let n = grid_count duration in
    let segs = replicate n segment_millis in
    let rem = duration - segment_millis * (n - 1) in
    if ltb 0 rem then set segs (n - 1) rem else segs

-- The loop of `remuxSegments` from its previous cut on, with the number of cuts made so far: the
-- segments that it appends and its last cut.
unfoldable pub remux_cuts : ℕ → ℕ → ℕ → List ℕ → List ℕ × ℕ
remux_cuts start prev made [] = ([], prev)
remux_cuts start prev made (k ∷ ks) =
    let cut = leb (segment_millis * (made + 1)) (k - start) in
    let rest = remux_cuts start (if cut then k else prev) (if cut then made + 1 else made) ks in
    if cut then ((k - prev) ∷ rest.0, rest.1) else rest

-- The key frames are the first one and the others.
unfoldable pub remux_segments : ℕ → List ℕ → ℕ → List ℕ
unfolding remux_cuts
remux_segments start ks duration =
    let cuts = remux_cuts start start 0 ks in
    let last = duration - (cuts.1 - start) in
    cuts.0 ++ (if leb last 0 then segment_millis else last) ∷ []

-- An error of ffprobe is `none`.
unfoldable pub remux_plan : Option (List ℕ) → ℕ → Option (List ℕ)
unfolding remux_segments
remux_plan none duration = none
remux_plan (some []) duration = none
remux_plan (some (k ∷ ks)) duration = some (remux_segments k ks duration)

-- `math.Ceil` of a duration in seconds.
unfoldable pub ceil_seconds : ℕ → ℕ
ceil_seconds d = (d + 999) / 1000

unfoldable pub raise_target : ℕ → List ℕ → ℕ
unfolding ceil_seconds
raise_target target [] = target
raise_target target (d ∷ ds) = raise_target (max target (ceil_seconds d)) ds

unfoldable pub target_duration : List ℕ → ℕ
unfolding raise_target
target_duration segments = raise_target segment_seconds segments

abbrev three_digits : ℕ → Str
three_digits n = (b'0' + n / 100) ∷ (b'0' + n / 10 % 10) ∷ (b'0' + n % 10) ∷ []

-- `%.3f` of a duration in seconds.
unfoldable pub format_seconds : ℕ → Str
format_seconds d = itoa (d / 1000) ++ (b'.' ∷ three_digits (d % 1000))

unfoldable pub segment_file : ℕ → Str
segment_file i = bytes "seg" ++ (itoa i ++ bytes ".ts")

-- The entries of a playlist, each a segment's length and its name, from a number on.
unfoldable pub entries_from : ℕ → List ℕ → List (ℕ × Str)
unfolding segment_file
entries_from i [] = []
entries_from i (d ∷ ds) = (d, segment_file i) ∷ entries_from (suc i) ds

unfoldable pub write_entries : List (ℕ × Str) → Str
unfolding format_seconds
write_entries [] = bytes "#EXT-X-ENDLIST\n"
write_entries ((d, name) ∷ rest) =
    bytes "#EXTINF:"
    ++ (format_seconds d ++ (bytes ",\n" ++ (name ++ (bytes "\n" ++ write_entries rest))))

-- `segments` is none on the fixed grid.
unfoldable pub playlist_segments : ℕ → Option (List ℕ) → List ℕ
unfolding grid_segments
playlist_segments duration none = grid_segments duration
playlist_segments duration (some segments) = segments

unfoldable pub build_playlist : ℕ → Option (List ℕ) → Str
unfolding playlist_segments target_duration entries_from write_entries
build_playlist duration segments =
    let segs = playlist_segments duration segments in
    bytes "#EXTM3U\n#EXT-X-VERSION:3\n#EXT-X-TARGETDURATION:"
    ++ (itoa (target_duration segs)
        ++ (bytes "\n#EXT-X-MEDIA-SEQUENCE:0\n#EXT-X-PLAYLIST-TYPE:VOD\n"
            ++ write_entries (entries_from 0 segs)))

-- What `^seg\d+\.ts$` asks of the text behind `seg`.
unfoldable pub has_number : Option Str → Bool
unfolding has_suffix trim_suffix all_digits
has_number none = false
has_number (some rest) =
    let number = trim_suffix rest (bytes ".ts") in
    has_suffix rest (bytes ".ts") && not (str_eq number []) && all_digits number

unfoldable pub segment_name : Str → Bool
unfolding has_number cut_prefix
segment_name name = has_number (cut_prefix name (bytes "seg"))

-- `name[len("seg") : len(name)-len(".ts")]`, read as a number. A name that matches has only digits
-- there, so the number is not negative.
unfoldable pub seg_index : Str → ℕ
seg_index name = pos_part (atoi (take (length name - 3 - 3) (drop 3 name)))

-- `n - 1` on Go's `int`
abbrev pub before : ℕ → ℤ
before zero = negsuc 0
before (suc n) = pos n

-- None where the encoder stays as it is.
unfoldable pub reposition_target : ℕ → ℤ → ℕ → Option ℕ
reposition_target start_seg produced requested =
    if ltb requested start_seg
      || ltb (pos_part produced + reposition_lead) (requested + neg_part produced)
    then some requested
    else none

-- `n > max` on the numbers that `highestSeg` holds
abbrev pub above : ℕ → ℤ → Bool
above n produced = ltb (pos_part produced) (n + neg_part produced)

unfoldable pub raise_highest : ℕ → ℤ → List Str → ℤ
unfolding segment_name seg_index
raise_highest start_seg highest [] = highest
raise_highest start_seg highest (name ∷ names) =
    let n = seg_index name in
    let counts = segment_name name && leb start_seg n && above n highest in
    raise_highest start_seg (if counts then pos n else highest) names

-- Over the names of the directory's entries; one that cannot be read has none.
unfoldable pub highest_seg : List Str → ℕ → ℤ
unfolding raise_highest
highest_seg names start_seg = raise_highest start_seg (before start_seg) names

abbrev two_digits : ℕ → Str
two_digits n = if ltb n 10 then b'0' ∷ itoa n else itoa n

unfoldable pub clock : ℕ → Str
clock sec =
    let h = sec / 3600 in
    let m = sec % 3600 / 60 in
    let s = sec % 60 in
    if ltb 0 h
    then itoa h ++ (bytes ":" ++ (two_digits m ++ (bytes ":" ++ two_digits s)))
    else itoa m ++ (bytes ":" ++ two_digits s)
