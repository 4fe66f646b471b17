-- ===== src/Playable.antt =====
-- internal/transcode/transcode.go and internal/transcode/probe.go: what a browser plays as it is,
-- what live HLS copies, and the optimized copy beside a source. The disk is a function from a path
-- to the time of its last change, none where there is no such file. MediaFile is the row of
-- internal/db/media.go.
use file_fin.Prelude.{
  ℕ, Bool, true, false, not, ◌&&◌, ◌||◌, Option, none, some, List, [], ◌∷◌, ◌++◌, leb, any,
  if◌then◌else◌, Str, bytes, str_eq, contains,
}
use file_fin.Strings.{split, trim_space}
use file_fin.Strings.Paths.{to_lower, has_prefix, ext, base_name, dir_name, join_path, trim_suffix}
pub mod Direct

pub record MediaFile : Type 0 where
  pub media_id : Str
  pub idx : ℕ
  pub path : Str
  pub name : Str
  pub season : ℕ
  pub episode : ℕ
  pub file_ext : Str
  pub container : Str
  pub video_codec : Str
  pub audio_codec : Str

-- The fields of ffprobe's answer that the decisions read.
pub record Streams : Type 0 where
  pub video_codec : Str
  pub audio_codec : Str
  pub duration : ℕ

abbrev pub optimized_ext : Str
optimized_ext = bytes ".optimized.mp4"

abbrev pub optimized_tmp_suffix : Str
optimized_tmp_suffix = optimized_ext ++ bytes ".tmp"

unfoldable pub base_no_ext : Str → Str
unfolding base_name ext trim_suffix
base_no_ext path = let name = base_name path in trim_suffix name (ext name)

-- The copy is fresh where it is there and not older than its source.
abbrev fresh_copy : Option ℕ → Option ℕ → Bool
fresh_copy none source = false
fresh_copy (some copied) none = false
fresh_copy (some copied) (some changed) = leb changed copied

unfoldable pub optimized_sibling : (Str → Option ℕ) → Str → Str × Bool
unfolding base_name ext trim_suffix dir_name join_path
optimized_sibling stat src_path =
    let base = trim_suffix (base_name src_path) (ext src_path) in
    let path = join_path (dir_name src_path) (base ++ optimized_ext) in
    (path, fresh_copy (stat path) (stat src_path))

abbrev direct_play : List Str
direct_play = bytes ".mp4" ∷ bytes ".webm" ∷ bytes ".m4v" ∷ []

unfoldable pub needs_transcode : Str → Bool
unfolding to_lower has_prefix
needs_transcode e =
    let e' = to_lower e in
    not (contains direct_play (if has_prefix e' (bytes ".") then e' else bytes "." ++ e'))

abbrev pub mp4_family : List Str
mp4_family =
    bytes "mov"
    ∷ bytes "mp4"
    ∷ bytes "m4a"
    ∷ bytes "m4v"
    ∷ bytes "3gp"
    ∷ bytes "3g2"
    ∷ bytes "mj2"
    ∷ []

abbrev pub mkv_family : List Str
mkv_family = bytes "matroska" ∷ bytes "webm" ∷ []

abbrev pub webm_video : List Str
webm_video = bytes "vp8" ∷ bytes "vp9" ∷ bytes "av1" ∷ []

abbrev pub webm_audio : List Str
webm_audio = bytes "opus" ∷ bytes "vorbis" ∷ [] ∷ []

unfoldable pub container_in : Str → List Str → Bool
unfolding to_lower
container_in container family =
    any (λ tok. contains family (trim_space tok)) (split b',' (to_lower container))

unfoldable pub remux_eligible : Streams → Bool
remux_eligible s =
    str_eq s.video_codec (bytes "h264")
    && (str_eq s.audio_codec (bytes "aac")
        || str_eq s.audio_codec (bytes "mp3")
        || str_eq s.audio_codec [])

unfoldable pub direct_playable : Str → Str → Str → Bool
unfolding container_in remux_eligible to_lower
direct_playable container video audio =
    if container_in container mp4_family
    then remux_eligible
        (record { video_codec = to_lower video; audio_codec = to_lower audio; duration = 0 })
    else if container_in container mkv_family
    then contains webm_video (to_lower video) && contains webm_audio (to_lower audio)
    else false
