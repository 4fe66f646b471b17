-- ===== src/Tests/Merging.antt =====
-- Tests of the metadata merge (internal/sources).
use file_fin.Prelude.{
  ◌+◌, ◌≡◌, refl, true, false, ◌||◌, ◌&&◌, List, [], ◌∷◌, Str, bytes, Map, lookup, str_eq, keep,
  contains, leb, if◌then◌else◌, pos,
}
use file_fin.Sources.Field.{
  Policy, Field, Meta, Snapshot, value, text_at, all_fields, choice_manual, value_at, slot,
  split_raw, clean, not_available, order, usable, snapshot_value, omdb, tmdb,
}
use file_fin.Sources.Compare.{
  Unicode, compare, same_values, fold, add_key, fold_all, same_set, subset,
}
use file_fin.Strings.{
  trim_space, is_space, equal_fold, join, fields, itoa, sort_strings, split, str_lt, trim_left,
  trim_right,
}
use file_fin.Sources.Resolve.{known, resolve, present, derived, gather}
use file_fin.Sources.Idempotent.{resolve_twice}
use file_fin.Sources.Pins.{resolve-manual, resolve-local}
use file_fin.Sources.Symmetric.{compare_comm}

abbrev pub ascii : Unicode
ascii = record {
  nfkd = λ s. s;
  is_mn = λ c. false;
  is_letter = λ c. (leb b'a' c && leb c b'z') || (leb b'A' c && leb c b'Z');
  is_digit_u = λ c. leb b'0' c && leb c b'9';
  to_lower = λ c. if leb b'A' c && leb c b'Z' then c + 32 else c;
}

abbrev from_omdb : Snapshot
from_omdb = record {
  id = bytes "tt1";
  kind = bytes "movie";
  imdb_id = bytes "tt1";
  fetched = pos 0;
  error = [];
  title = bytes "The Goblin";
  alt_titles = [];
  year = pos 2016;
  description = bytes "A goblin.";
  metadata = (bytes "writtenBy", bytes "Kim, Lee") ∷ (bytes "language", bytes "Korean") ∷ [];
  ratings = (bytes "imdb", bytes "8.6") ∷ [];
  actors = [];
  genres = bytes "drama" ∷ bytes "fantasy" ∷ [];
  poster = [];
}

abbrev from_tmdb : Snapshot
from_tmdb = record from_omdb {
  title = bytes "Goblin";
  year = pos 2017;
  metadata = (bytes "language", bytes "Korean, English") ∷ [];
  genres = bytes "Drama" ∷ bytes "comedy" ∷ [];
}

abbrev pub item : Meta
item = record {
  title = bytes "Guardian";
  year = pos 0;
  description = [];
  metadata = [];
  ratings = [];
  actors = [];
  genres = [];
  sources = (bytes "omdb", from_omdb) ∷ (bytes "tmdb", from_tmdb) ∷ [];
  choices = (bytes "description", bytes "manual") ∷ [];
}

abbrev pub no_rules : Map (List Str)
no_rules = []

resolve_twice_example :
    resolve ascii (resolve ascii item no_rules).0 no_rules ≡ resolve ascii item no_rules
resolve_twice_example = resolve_twice ascii item no_rules

abbrev pub plot : Field
plot = record {
  key = bytes "description";
  policy = Policy.prose;
  list = false;
  joined = false;
  pickable = true;
  virtual = false;
}

abbrev title_field : Field
title_field = record plot { key = bytes "title"; policy = Policy.title }

compare_comm_example :
    compare ascii Policy.year (bytes "2016" ∷ []) (bytes "2017" ∷ []) from_omdb from_tmdb
    ≡ compare ascii Policy.year (bytes "2017" ∷ []) (bytes "2016" ∷ []) from_tmdb from_omdb
compare_comm_example =
    compare_comm ascii Policy.year (bytes "2016" ∷ []) (bytes "2017" ∷ []) from_omdb from_tmdb

resolve-manual_example : value (resolve ascii item no_rules).0 plot ≡ value item plot
unfolding all_fields text_at choice_manual lookup str_eq
resolve-manual_example = resolve-manual ascii item no_rules 5 plot refl refl refl refl

resolve-local_example : value (resolve ascii item no_rules).0 title_field ≡ value item title_field
unfolding all_fields text_at lookup str_eq trim_space is_space equal_fold not_available gather
    present keep order usable snapshot_value value value_at slot clean same_values fold join
    contains add_key fold_all same_set subset omdb split_raw tmdb known fields itoa sort_strings
    split str_lt trim_left trim_right derived
resolve-local_example = resolve-local ascii item no_rules 0 title_field refl refl refl refl refl
