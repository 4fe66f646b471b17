-- ===== src/Sources/Field.antt =====
-- internal/sources/fields.go, with the types of internal/importer/importer.go that it works on.
use file_fin.Prelude.{
  Bool, true, false, not, ◌&&◌, Option, none, some, List, [], ◌∷◌, if◌then◌else◌, Str, str_eq,
  bytes, Map, lookup, insert, delete, ℤ, pos, pos_part, ltb_ℤ,
}
use file_fin.Strings.{trim_space, equal_fold, split, join, itoa, atoi}

pub data Policy : Type 0 where
  title year kind id runtime release directors writers exact union prose fill : Policy

-- `Field` less its label and group, which are only shown.
pub record Field : Type 0 where
  pub key : Str
  pub policy : Policy
  pub list : Bool
  pub joined : Bool
  pub pickable : Bool
  pub virtual : Bool

pub record Snapshot : Type 0 where
  pub id : Str
  pub kind : Str
  pub imdb_id : Str
  pub fetched : ℤ
  pub error : Str
  pub title : Str
  pub alt_titles : List Str
  pub year : ℤ
  pub description : Str
  pub metadata : Map Str
  pub ratings : Map Str
  pub actors : List Str
  pub genres : List Str
  pub poster : Str

-- `importer.Meta`, less the fields that the merge neither reads nor writes. A nil map is an empty
-- one.
pub record Meta : Type 0 where
  pub title : Str
  pub year : ℤ
  pub description : Str
  pub metadata : Map Str
  pub ratings : Map Str
  pub actors : List Str
  pub genres : List Str
  pub sources : Map Snapshot
  pub choices : Map Str

-- `Snapshot.Usable`; the nil snapshot is a missing key of the map.
unfoldable pub usable : Option Snapshot → Bool
usable none = false
usable (some s) = str_eq s.error []

unfoldable pub omdb : Str
omdb = bytes "omdb"

unfoldable pub tmdb : Str
tmdb = bytes "tmdb"

unfoldable pub order : List Str
unfolding omdb tmdb
order = omdb ∷ tmdb ∷ []

unfoldable pub label : Str → Str
unfolding omdb tmdb
label src = if str_eq src omdb then bytes "OMDb" else if str_eq src tmdb then bytes "TMDb" else src

unfoldable pub choice_union : Str
choice_union = bytes "union"

unfoldable pub choice_manual : Str
choice_manual = bytes "manual"

-- The places of a Meta that the switches of `value` and `setValue` choose from.
pub data Slot : Type 0 where
  title year description actors genres : Slot
  metadata : Str → Slot

unfoldable pub slot : Str → Slot
slot key =
    if str_eq key (bytes "title")
    then title
    else if str_eq key (bytes "year")
    then year
    else if str_eq key (bytes "description")
    then description
    else if str_eq key (bytes "actors")
    then actors
    else if str_eq key (bytes "genres")
    then genres
    else metadata key

unfoldable pub not_available : Str
not_available = bytes "N/A"

unfoldable pub clean : List Str → List Str
clean [] = []
clean (v ∷ vs) =
    let rest = clean vs in
    if not (str_eq (trim_space v) []) && not (equal_fold (trim_space v) not_available)
    then trim_space v ∷ rest
    else rest

unfoldable pub comma_space : Str
comma_space = b',' ∷ b' ' ∷ []

-- `m[k]` of a map of strings, "" for a missing key.
unfoldable pub text_at : Map Str → Str → Str
text_at m k = elim (lookup k m) [ none ↦ [] | some v ↦ v ]

unfoldable pub split_raw : Bool → Str → List Str
split_raw joined raw = if joined then clean (split b',' raw) else clean (raw ∷ [])

unfoldable pub value_at : Meta → Slot → Bool → List Str
unfolding split_raw
value_at m title joined = split_raw joined m.title
value_at m year joined =
    split_raw joined (if ltb_ℤ (pos 0) m.year then itoa (pos_part m.year) else [])
value_at m description joined = split_raw joined m.description
value_at m actors joined = clean m.actors
value_at m genres joined = clean m.genres
value_at m (metadata key) joined = split_raw joined (text_at m.metadata key)

unfoldable pub value : Meta → Field → List Str
value m f = value_at m (slot f.key) f.joined

unfoldable pub set_at : Meta → Slot → List Str → Meta
set_at m title v = record m { title = join comma_space v }
set_at m year v = record m { year = atoi (join comma_space v) }
set_at m description v = record m { description = join comma_space v }
set_at m actors v = record m { actors = v }
set_at m genres v = record m { genres = v }
set_at m (metadata key) v =
    if str_eq (join comma_space v) []
    then record m { metadata = delete key m.metadata }
    else record m { metadata = insert key (join comma_space v) m.metadata }

unfoldable pub set_value : Meta → Field → List Str → Meta
set_value m f v = set_at m (slot f.key) v

-- The Meta that `snapshotValue` reads a snapshot through.
abbrev pub meta_of : Snapshot → Meta
meta_of s = record {
  title = s.title;
  year = s.year;
  description = s.description;
  metadata = s.metadata;
  ratings = [];
  actors = s.actors;
  genres = s.genres;
  sources = [];
  choices = [];
}

unfoldable pub snapshot_value : Snapshot → Field → List Str
snapshot_value s f =
    if str_eq f.key (bytes "kind") then clean (s.kind ∷ []) else value (meta_of s) f

abbrev scalar : Str → Policy → Field
scalar key policy = record {
  key = key;
  policy = policy;
  list = false;
  joined = false;
  pickable = true;
  virtual = false;
}

abbrev listed : Str → Policy → Field
listed key policy = record (scalar key policy) { list = true }

abbrev listed_joined : Str → Policy → Field
listed_joined key policy = record (scalar key policy) { list = true; joined = true }

unfoldable pub all_fields : List Field
all_fields =
    scalar (bytes "title") Policy.title
    ∷ scalar (bytes "year") Policy.year
    ∷ record (scalar (bytes "kind") Policy.kind) { pickable = false; virtual = true }
    ∷ record (scalar (bytes "imdbID") Policy.id) { pickable = false }
    ∷ record (scalar (bytes "tmdbID") Policy.fill) { pickable = false }
    ∷ scalar (bytes "description") Policy.prose
    ∷ scalar (bytes "tagline") Policy.fill
    ∷ scalar (bytes "originalTitle") Policy.fill
    ∷ scalar (bytes "release") Policy.release
    ∷ scalar (bytes "runtime") Policy.runtime
    ∷ listed_joined (bytes "directedBy") Policy.directors
    ∷ listed_joined (bytes "writtenBy") Policy.writers
    ∷ listed (bytes "actors") Policy.fill
    ∷ listed (bytes "genres") Policy.union
    ∷ listed_joined (bytes "language") Policy.union
    ∷ listed_joined (bytes "origin") Policy.union
    ∷ scalar (bytes "contentRating") Policy.exact
    ∷ scalar (bytes "awards") Policy.fill
    ∷ scalar (bytes "boxOffice") Policy.fill
    ∷ []

-- `FieldByKey`
unfoldable pub field_by_key : Str → List Field → Option Field
field_by_key key [] = none
field_by_key key (f ∷ fs) = if str_eq f.key key then some f else field_by_key key fs
