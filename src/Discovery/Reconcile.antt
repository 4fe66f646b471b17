-- ===== src/Discovery/Reconcile.antt =====
-- internal/server/scan.go: the reconciliation of the cached media with the folders on disk. Reading a
-- folder, its fingerprint and the repair of its subtitles are parameters, and so is which writes to
-- the database succeed. The tasks that are pruned with an item, its files and facets are left out.
use file_fin.Prelude.{
  keys, ℕ, suc, ltb, Bool, true, false, Option, none, some, List, [], ◌∷◌, Str, str_eq, contains,
  Map, lookup, insert, delete, if◌then◌else◌,
}

-- What the disk and the database answer about an item.
pub record World (Folder Row : Type 0) : Type 0 where
  -- `readMediaFolder`
  pub read : Folder → Option Row
  pub fingerprint : Folder → Str
  -- The number of sidecars that `repairSubtitles` writes, and the folder after it.
  pub repaired : Folder → ℕ
  pub after_repair : Folder → Folder
  pub inserted : Str → Bool
  pub deleted : Str → Bool
  pub pruned : Str → Bool
  pub files_read : Str → Bool
  pub stamped : Str → Bool

pub record Cache (Row : Type 0) : Type 0 where
  pub rows : Map Row
  pub prints : Map Str

abbrev pub found {ℓ} : {A : Type ℓ} → Option A → Bool
found none = false
found (some a) = true

module _ {Folder Row : Type 0} (w : World Folder Row) where
  -- `insertMediaFromDisk`
  abbrev pub insert_read : Str → Option Row → Map Row → Map Row × Bool
  insert_read id none rows = (rows, false)
  insert_read id (some r) rows = if w.inserted id then (insert id r rows, true) else (rows, false)

  abbrev pub add_one : List Str → Str → Folder → Map Row → Map Row × Bool
  add_one cached id f rows =
      if contains cached id then (rows, false) else insert_read id (w.read f) rows

  abbrev pub count_if : Bool → ℕ → ℕ
  count_if true n = suc n
  count_if false n = n

  -- The loop over the folders on disk, with the cached ids that were read before.
  unfoldable pub add_new : List Str → Map Folder → Map Row → ℕ → Map Row × ℕ
  add_new cached [] rows added = (rows, added)
  add_new cached ((id, f) ∷ refs) rows added =
      let new = add_one cached id f rows in add_new cached refs new.0 (count_if new.1 added)

  -- `dropMediaFromCache`, each write by best effort.
  abbrev pub drop_media : Str → Cache Row → Cache Row
  drop_media id c = record {
    rows = if w.deleted id then delete id c.rows else c.rows;
    prints = if w.pruned id then delete id c.prints else c.prints;
  }

  abbrev pub drop_one : Bool → Str → Cache Row → Cache Row
  drop_one live id c = if live then c else drop_media id c

  -- The loop over the cached ids.
  unfoldable pub drop_gone : Map Folder → List Str → Cache Row → ℕ → Cache Row × ℕ
  drop_gone refs [] c removed = (c, removed)
  drop_gone refs (id ∷ cached) c removed =
      let live = found (lookup id refs) in
      drop_gone refs cached (drop_one live id c) (if live then removed else suc removed)

  -- The cache, and how many items were added and removed.
  unfoldable pub reconcile_diff : Map Folder → Cache Row → Cache Row × ℕ × ℕ
  unfolding add_new drop_gone
  reconcile_diff refs c =
      let cached = keys c.rows in
      let added = add_new cached refs c.rows 0 in
      let removed = drop_gone refs cached (record c { rows = added.0 }) 0 in
      (removed.0, added.1, removed.1)

  abbrev pub stored_print : Option Str → Str
  stored_print none = []
  stored_print (some p) = p

  abbrev pub refresh : Str → Option Row → Map Row → Map Row
  refresh id none rows = rows
  refresh id (some r) rows = if w.inserted id then insert id r rows else rows

  -- The cache, and the number of sidecars written.
  unfoldable pub reconcile_item : Str → Folder → Cache Row → Cache Row × ℕ
  reconcile_item id f c =
      let cur = w.fingerprint f in
      let same = str_eq cur (stored_print (lookup id c.prints)) in
      let rows = if same then c.rows else refresh id (w.read f) c.rows in
      let print = if ltb 0 (w.repaired f) then w.fingerprint (w.after_repair f) else cur in
      let prints = if w.stamped id then insert id print c.prints else c.prints in
      if found (lookup id rows)
      then if w.files_read id
        then (record { rows = rows; prints = prints }, w.repaired f)
        else (record { rows = rows; prints = c.prints }, 0)
      else (record { rows = rows; prints = c.prints }, 0)
