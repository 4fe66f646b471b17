-- ===== src/Tests/Replacing.antt =====
-- Tests of internal/server/importreplace.go and internal/server/discovery.go.
use file_fin.Prelude.{
  ℕ, ◌<◌, ◌≡◌, refl, Bool, true, false, none, some, Option, List, [], ◌∷◌, any, All, keep, length,
  get_elem?, Str, bytes, str_eq, contains,
}
use file_fin.Strings.{split, join}
use file_fin.Strings.Paths.{
  has_prefix, trim_suffix, to_lower, ext, clean_path, base_name, dir_name, join_path, path_parts,
  trim_slashes, last_element, upto_last_slash,
}
use file_fin.Playable.{MediaFile, base_no_ext, optimized_sibling}
use file_fin.Replace.{
  superseded_files, same_file, would_replace, finish_replace, retire, retire_all, remove_optimized,
  remove_sidecars, remove_file, keep_probed_formats, Technical,
}
use file_fin.Replace.Superseded.{superseded_files-safe, superseded_files-ambiguous}
use file_fin.Replace.Disk.{finish_replace-target}
use file_fin.Replace.Probed.{keep_probed_formats-known}
use file_fin.Discovery.{
  Surroundings, no_sweep, begin, discovery_tick, sweep_rolling, handle_full_sweep, conflict,
  sweep_full,
}
use file_fin.Discovery.Guard.{World, Reach, start, next, claims, Describes, Reach-Describes}
use file_fin.Discovery.Counting.{on_disk, discovery_tick-counts}

abbrev disc : Str → MediaFile
disc path = record {
  media_id = bytes "m";
  idx = 0;
  path = path;
  name = path;
  season = 0;
  episode = 0;
  file_ext = bytes ".mkv";
  container = bytes "matroska";
  video_codec = bytes "hevc";
  audio_codec = bytes "aac";
}

abbrev two_discs : List MediaFile
two_discs = disc (bytes "/f/a - part1.mkv") ∷ disc (bytes "/f/a - part2.mkv") ∷ []

abbrev whole_film : Str
whole_film = bytes "/f/a.mkv"

superseded_files-ambiguous_example :
    let cand = keep (would_replace 0 0 whole_film) two_discs in
    ((superseded_files two_discs 0 0 whole_film).0 ≡ [])
    × (1 < length cand)
    × (keep (λ f. str_eq (base_no_ext f.path) (base_no_ext whole_film)) cand ≡ [])
unfolding superseded_files same_file clean_path has_prefix path_parts split join str_eq keep
    base_no_ext base_name ext trim_suffix trim_slashes last_element any
superseded_files-ambiguous_example = superseded_files-ambiguous two_discs 0 0 whole_film refl

superseded_files-safe_example :
    All (λ f. f.season ≡ 0) (superseded_files two_discs 0 0 (bytes "/f/a - part1.mp4")).0
    × All
        (λ f. would_replace 0 0 (bytes "/f/a - part1.mp4") f ≡ true)
        (superseded_files two_discs 0 0 (bytes "/f/a - part1.mp4")).0
superseded_files-safe_example =
    superseded_files-safe (λ f. f.season ≡ 0) two_discs 0 0 (bytes "/f/a - part1.mp4")
      (refl, (refl, tt))

abbrev all_removable : Str → Bool
all_removable path = true

abbrev folder : List Str
folder =
    bytes "/f/b.avi" ∷ bytes "/f/b.optimized.mp4" ∷ bytes "/f/b.eng.srt" ∷ bytes "/f/c.mkv" ∷ []

replaced :
    finish_replace all_removable (disc (bytes "/f/b.avi") ∷ []) 0 0 (bytes "/f/c.mkv") folder
    ≡ bytes "/f/c.mkv" ∷ []
unfolding finish_replace superseded_files same_file clean_path has_prefix path_parts split join
    str_eq keep base_no_ext base_name ext trim_suffix trim_slashes last_element any retire_all
    retire remove_optimized remove_sidecars remove_file optimized_sibling dir_name upto_last_slash
    join_path contains to_lower
replaced = refl

finish_replace-target_example :
    contains
      (finish_replace all_removable (disc (bytes "/f/b.avi") ∷ []) 0 0 (bytes "/f/c.mkv") folder)
      (bytes "/f/c.mkv")
    ≡ true
unfolding optimized_sibling dir_name upto_last_slash join_path clean_path has_prefix path_parts
    split join str_eq base_name ext trim_suffix trim_slashes last_element any contains to_lower
finish_replace-target_example =
    finish_replace-target all_removable (disc (bytes "/f/b.avi") ∷ []) 0 0 (bytes "/f/c.mkv") folder
      refl (refl, refl) ((refl, refl), tt) refl

abbrev nothing_probed : Technical
nothing_probed = record {
  duration = 0;
  container = [];
  video_codec = [];
  audio_codec = [];
  width = 0;
  height = 0;
}

abbrev unprobed : MediaFile
unprobed = record (disc (bytes "/f/b.avi")) {
  container = [];
  video_codec = [];
  audio_codec = [];
  idx = 3;
}

keep_probed_formats-known_example :
    get_elem?
      (keep_probed_formats (unprobed ∷ []) (disc (bytes "/f/b.avi") ∷ []) whole_film nothing_probed)
      0
    ≡ some (record (disc (bytes "/f/b.avi")) { idx = 3 })
unfolding same_file clean_path has_prefix path_parts split join str_eq
keep_probed_formats-known_example =
    keep_probed_formats-known (unprobed ∷ []) (disc (bytes "/f/b.avi") ∷ []) whole_film
      nothing_probed 0 0 unprobed (disc (bytes "/f/b.avi")) (tt, tt) refl refl refl refl

second_press :
    (handle_full_sweep true 9 (begin sweep_rolling 64 no_sweep).0).1
    ≡ conflict (bytes "a rolling batch sweep is already running; watch it on the Progress page")
unfolding handle_full_sweep begin
second_press = refl

abbrev claimed : World
claimed = record {
  tracker = record {
    scope = sweep_full;
    total = 2;
    done_count = 0;
    subtitles = 0;
    running = true;
    finished = false;
  };
  sweeps = record { scope = sweep_full; checked = 0; repaired = 0 } ∷ [];
}

claimed-Reach : Reach claimed
unfolding begin
claimed-Reach =
    next (record { tracker = no_sweep; sweeps = [] }) claimed start
      (claims (record { tracker = no_sweep; sweeps = [] }) sweep_full 2 refl)

Reach-Describes_example : Describes claimed.tracker claimed.sweeps
Reach-Describes_example = Reach-Describes claimed claimed-Reach

abbrev library : Surroundings
library = record {
  has_db = true;
  data_dir = bytes "/d";
  has_refs = true;
  due = some (bytes "a" ∷ bytes "b" ∷ []);
  repaired_in = λ id. if_a (str_eq id (bytes "a"));
  cancelled = λ i. false;
}
  where
    if_a : Bool → Option ℕ
    if_a true = some 2
    if_a false = none

discovery_tick-counts_example :
    ((discovery_tick library no_sweep).running ≡ false)
    × ((discovery_tick library no_sweep).finished ≡ true)
    × ((discovery_tick library no_sweep).total ≡ 2)
    × ((discovery_tick library no_sweep).done_count
        ≡ on_disk library.repaired_in (bytes "a" ∷ bytes "b" ∷ []))
discovery_tick-counts_example =
    discovery_tick-counts library no_sweep (bytes "a" ∷ bytes "b" ∷ []) refl refl refl refl refl
      (λ k. refl)
