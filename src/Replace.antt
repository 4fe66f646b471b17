-- ===== src/Replace.antt =====
-- internal/server/importreplace.go: the files that a newly written one takes the place of, what is
-- removed from the disk with them, and the formats that the fresh rows keep. The disk is the list of
-- its files' paths; whether the system lets a file be removed is a parameter.
use file_fin.Prelude.{
  ℕ, Bool, true, false, not, ◌&&◌, ◌||◌, Option, none, some, List, [], ◌∷◌, ◌++◌, map, keep, length,
  leb, ◌==◌, if◌then◌else◌, Str, bytes, str_eq, contains, Map, lookup, insert,
}
use file_fin.Strings.Paths.{clean_path, has_prefix, to_lower, ext, base_name, dir_name, join_path}
use file_fin.Playable.{MediaFile, base_no_ext, optimized_sibling}
pub mod Superseded
pub mod Disk
pub mod Probed

abbrev pub subtitle_exts : List Str
subtitle_exts =
    bytes ".srt" ∷ bytes ".vtt" ∷ bytes ".ass" ∷ bytes ".ssa" ∷ bytes ".sub" ∷ bytes ".idx" ∷ []

unfoldable pub same_file : Str → Str → Bool
same_file a b = str_eq (clean_path a) (clean_path b)

abbrev pub would_replace : ℕ → ℕ → Str → MediaFile → Bool
would_replace season episode target f =
    f.season == season && f.episode == episode && not (same_file f.path target)

-- The files that are left over when several could be meant.
abbrev pub by_name : List MediaFile → List MediaFile × Bool
by_name [] = ([], true)
by_name (f ∷ exact) = (f ∷ exact, false)

-- The files to retire, and whether it cannot be told which they are.
unfoldable pub superseded_files : List MediaFile → ℕ → ℕ → Str → List MediaFile × Bool
superseded_files files season episode target =
    let cand = keep (would_replace season episode target) files in
    if leb (length cand) 1
    then (cand, false)
    else by_name (keep (λ f. str_eq (base_no_ext f.path) (base_no_ext target)) cand)

abbrev Files : Type 0
Files = List Str

abbrev pub without : Str → Files → Files
without path = keep (λ p. not (str_eq p path))

-- `os.Remove`, whose error is not looked at
unfoldable pub remove_file : (Str → Bool) → Str → Files → Files
remove_file removable path files = if removable path then without path files else files

unfoldable pub remove_optimized : (Str → Bool) → Str → Files → Files
unfolding remove_file
remove_optimized removable path files =
    let sib = (optimized_sibling (λ p. none) path).0 in
    remove_file removable (sib ++ bytes ".tmp") (remove_file removable sib files)

abbrev pub sidecar_of : Str → Str → Str → Bool
sidecar_of dir base path =
    let name = base_name path in
    str_eq (dir_name path) dir
    && has_prefix name (base ++ bytes ".")
    && contains subtitle_exts (to_lower (ext name))

abbrev remove_each : (Str → Bool) → List Str → Files → Files
remove_each removable [] files = files
remove_each removable (p ∷ ps) files = remove_each removable ps (remove_file removable p files)

-- The entries of the folder are read before the first of them is removed.
unfoldable pub remove_sidecars : (Str → Bool) → Str → Str → Files → Files
unfolding remove_file
remove_sidecars removable dir base files =
    remove_each removable (keep (sidecar_of dir base) files) files

-- One turn of the loop over the files to retire: a file that cannot be removed keeps what belongs
-- to it.
unfoldable pub retire : (Str → Bool) → Str → Files → MediaFile → Files
unfolding remove_file remove_optimized remove_sidecars
retire removable target files f =
    let gone = remove_optimized removable f.path (without f.path files) in
    if not (removable f.path) && contains files f.path
    then files
    else if str_eq (base_no_ext f.path) (base_no_ext target)
    then gone
    else remove_sidecars removable (dir_name f.path) (base_no_ext f.path) gone

unfoldable pub retire_all : (Str → Bool) → Str → List MediaFile → Files → Files
unfolding retire
retire_all removable target [] files = files
retire_all removable target (f ∷ old) files =
    retire_all removable target old (retire removable target files f)

-- What `finishReplace` does to the disk.
unfoldable pub finish_replace : (Str → Bool) → List MediaFile → ℕ → ℕ → Str → Files → Files
unfolding superseded_files retire_all remove_optimized
finish_replace removable known season episode target files =
    let old = (superseded_files known season episode target).0 in
    remove_optimized removable target (retire_all removable target old files)

pub record Technical : Type 0 where
  pub duration : ℕ
  pub container : Str
  pub video_codec : Str
  pub audio_codec : Str
  pub width : ℕ
  pub height : ℕ

unfoldable pub technical_empty : Technical → Bool
technical_empty t =
    t.duration == 0
    && str_eq t.container []
    && str_eq t.video_codec []
    && str_eq t.audio_codec []
    && t.width == 0
    && t.height == 0

-- `byPath`, filled in the order of the rows
unfoldable pub by_path : Map MediaFile → List MediaFile → Map MediaFile
by_path m [] = m
by_path m (f ∷ known) = by_path (insert f.path f m) known

abbrev pub with_format : MediaFile → Option MediaFile → MediaFile
with_format f none = f
with_format f (some g) = record f {
  container = g.container;
  video_codec = g.video_codec;
  audio_codec = g.audio_codec;
}

unfoldable pub keep_format : Map MediaFile → Str → Technical → MediaFile → MediaFile
keep_format paths target tech f =
    if same_file f.path target
    then if not (technical_empty tech)
      then record f {
        container = tech.container;
        video_codec = tech.video_codec;
        audio_codec = tech.audio_codec;
      }
      else f
    else with_format f (lookup f.path paths)

unfoldable pub keep_probed_formats :
    List MediaFile → List MediaFile → Str → Technical → List MediaFile
unfolding by_path keep_format
keep_probed_formats fresh known target tech = map (keep_format (by_path [] known) target tech) fresh
