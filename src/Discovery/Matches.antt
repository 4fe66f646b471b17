-- ===== src/Discovery/Matches.antt =====
-- internal/server/scan.go: what the cache holds after a reconciliation.
use file_fin.Prelude.{Bool, Option, none, some, Str, if◌then◌else◌}
use file_fin.Discovery.Reconcile.{World}

module _ {Folder Row : Type 0} (w : World Folder Row) where
  abbrev pub newly : Str → Option Row → Option Row
  newly k none = none
  newly k (some r) = if w.inserted k then some r else none

  -- What stands in the cache under an id, from the folder on disk and the old row.
  abbrev pub reconciled : Str → Option Folder → Option Row → Option Row
  reconciled k (some f) (some r) = some r
  reconciled k (some f) none = newly k (w.read f)
  reconciled k none (some r) = if w.deleted k then none else some r
  reconciled k none none = none

  abbrev replaced : Str → Option Row → Option Row → Option Row
  replaced k none old = old
  replaced k (some r) old = if w.inserted k then some r else old

  abbrev added_row : Str → Option Folder → Option Row → Option Row
  added_row k none old = old
  added_row k (some f) old = replaced k (w.read f) old

  abbrev add_row : Bool → Bool → Str → Folder → Option Row → Option Row
  add_row old same k f r = if old then r else if same then replaced k (w.read f) r else r
