-- ===== src/Library.antt =====
-- internal/library/library.go: the categories of the library. The configurations on disk are a map from the category's path; whether another file
-- or folder has a path, whether a folder is empty, and how a write ends are parameters.
use file_fin.Prelude.{
  ℕ, suc, ◌+◌, Bool, true, false, not, ◌&&◌, ◌||◌, Option, none, some, List, [], ◌∷◌, ◌++◌, length,
  take, any, ltb, leb, ◌==◌, if◌then◌else◌, Str, bytes, str_eq, contains, Map, lookup, insert,
  delete,
}
use file_fin.Strings.{trim_space, str_lt, byte_length}
use file_fin.Strings.Paths.{to_lower, has_prefix, base_name, join_path}
use file_fin.Library.Markings.{Markers, no_markers, is_empty_markers, clean, learn_markers}
pub mod Markings
pub mod Capped
pub mod Learning
pub mod Kept

pub record CategoryConfig : Type 0 where
  pub id : ℕ
  pub alias : Str
  pub other_media : Bool
  pub position : ℕ
  pub markers : Option Markers

pub record Category : Type 0 where
  pub id : ℕ
  pub name : Str
  pub parent : Str
  pub leaf : Str
  pub alias : Str
  pub position : ℕ
  pub markers : Markers

pub data NameError : Type 0 where
  missing : NameError
  too_long : NameError
  hidden : NameError
  slashed : NameError
  control : NameError

-- `ValidName`, none where the name is usable.
unfoldable pub valid_name : Str → Option NameError
valid_name name =
    if str_eq name []
    then some missing
    else if ltb 255 (byte_length name)
    then some too_long
    else if has_prefix name (bytes ".")
    then some hidden
    else if any (λ c. c == b'/') name
    then some slashed
    else if any (λ c. ltb c 32) name
    then some control
    else none

abbrev nothing {ℓ} : {A : Type ℓ} → Option A → Bool
nothing none = true
nothing (some a) = false

-- What `config.json` holds: a configuration, or a text that is no configuration.
pub data Stored : Type 0 where
  readable : CategoryConfig → Stored
  unreadable : Stored

abbrev pub Disk : Type 0
Disk = Map Stored

-- How a write ends; one that fails may leave a file that cannot be read.
pub data Writing : Type 0 where
  written : Writing
  untouched : Writing
  truncated : Writing

pub data Outcome : Type 0 where
  done : Outcome
  no_category : Outcome
  bad_name : NameError → Outcome
  no_parent : Outcome
  already_exists : Outcome
  not_empty : Outcome
  write_failed : Outcome

abbrev pub markers_of : Option Markers → Markers
markers_of none = no_markers
markers_of (some m) = m

-- An alias falls back to the leaf name, also when it is read.
abbrev pub alias_or : Str → Str → Str
alias_or alias leaf = if str_eq (trim_space alias) [] then leaf else alias

unfoldable pub read_config : Str → Stored → CategoryConfig
read_config leaf unreadable = record {
  id = 0;
  alias = leaf;
  other_media = false;
  position = 0;
  markers = none;
}
read_config leaf (readable c) = record c { alias = alias_or c.alias leaf }

unfoldable pub write_config : Writing → Disk → Str → CategoryConfig → Disk × Outcome
write_config written disk path c = (insert path (readable c) disk, done)
write_config untouched disk path c = (disk, write_failed)
write_config truncated disk path c = (insert path unreadable disk, write_failed)

unfoldable pub change_found :
    (CategoryConfig → CategoryConfig) → Writing → Disk → Str → Option Stored → Disk × Outcome
unfolding read_config write_config
change_found f w disk path none = (disk, no_category)
change_found f w disk path (some s) = write_config w disk path (f (read_config (base_name path) s))

-- Reads, changes and writes the configuration of one category.
unfoldable pub change : (CategoryConfig → CategoryConfig) → Writing → Disk → Str → Disk × Outcome
unfolding change_found
change f w disk path = change_found f w disk path (lookup path disk)

-- An `untouched` write is also a folder that could not be made.
unfoldable pub create : (Str → Bool) → Writing → Disk → Str → Str → Str → ℕ → ℕ → Disk × Outcome
create taken w disk parent leaf alias id position = elim (valid_name leaf) [
  | some e ↦ (disk, bad_name e)
  | none ↦
      let orphan : Bool = not (str_eq parent []) && nothing (lookup parent disk) in
      let path = if str_eq parent [] then leaf else join_path parent leaf in
      let given = trim_space alias in
      if orphan
      then (disk, no_parent)
      else if taken path
      then (disk, already_exists)
      else write_config w disk path (record {
        id = id;
        alias = if str_eq given [] then leaf else given;
        other_media = false;
        position = position;
        markers = none;
      })
]

abbrev with_alias : Str → Bool → CategoryConfig → CategoryConfig
with_alias shown other c = record c { alias = shown; other_media = other }

unfoldable pub set_alias : Writing → Disk → Str → Str → Bool → Disk × Outcome
unfolding change
set_alias w disk path alias other =
    let given = trim_space alias in
    change (with_alias (if str_eq given [] then base_name path else given) other) w disk path

abbrev with_markers : Markers → CategoryConfig → CategoryConfig
with_markers cleaned c = record c {
  markers = if is_empty_markers cleaned then none else some cleaned;
}

unfoldable pub set_markers : Writing → Disk → Str → Markers → Disk × Outcome
unfolding change clean is_empty_markers
set_markers w disk path m = change (with_markers (clean m)) w disk path

abbrev with_learned : List Str → CategoryConfig → CategoryConfig
with_learned ks c =
    let m = markers_of c.markers in
    record c { markers = some (record m { learned = learn_markers m.learned ks }) }

unfoldable pub learn : Writing → Disk → Str → List Str → Disk × Outcome
unfolding change learn_markers
learn w disk path [] = (disk, done)
learn w disk path (k ∷ ks) = change (with_learned (k ∷ ks)) w disk path

abbrev with_position : ℕ → CategoryConfig → CategoryConfig
with_position position c = record c { position = position }

unfoldable pub set_position : Writing → Disk → Str → ℕ → Disk × Outcome
unfolding change
set_position w disk path position = change (with_position position) w disk path

-- `Delete`: the folder must hold nothing but its configuration.
unfoldable pub delete_category : (Str → Bool) → Bool → Bool → Disk → Str → Disk × Outcome
delete_category is_empty removed dir_removed disk path = elim (valid_name (base_name path)) [
  | some e ↦ (disk, bad_name e)
  | none ↦ elim (lookup path disk) [
    | none ↦ (disk, no_category)
    | some c ↦
        if not (is_empty path)
        then (disk, not_empty)
        else if removed
        then (delete path disk, if dir_removed then done else write_failed)
        else (disk, write_failed)
  ]
]

-- `NextPosition` over the positions of the siblings.
unfoldable pub next_position : Str → List Category → ℕ → ℕ
next_position parent [] next = next
next_position parent (c ∷ cats) next =
    next_position parent cats
      (if str_eq c.parent parent && leb next c.position then suc c.position else next)
