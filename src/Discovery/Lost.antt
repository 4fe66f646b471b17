-- ===== src/Discovery/Lost.antt =====
-- internal/server/scan.go: a refresh of the cache that fails is not tried again.
use file_fin.Prelude.{◌≡◌, some, List, [], ◌∷◌, Str, lookup}
use file_fin.Discovery.Reconcile.{World, Cache, reconcile_item}

module _ {Folder Row : Type 0} (id : Str) (f : Folder) where
  -- Passes over one item, each with what the database answers that time.
  unfoldable pub passes : List (World Folder Row) → Cache Row → Cache Row
  passes [] c = c
  passes (w ∷ later) c = passes later (reconcile_item w id f c).0

  -- The folder looks the same, and has no track without a sidecar.
  abbrev pub Unchanged : World Folder Row → World Folder Row → Type 0
  Unchanged w v = (v.fingerprint f ≡ w.fingerprint f) × (v.repaired f ≡ 0)

  module _ (w : World Folder Row) (r : Row) where
    abbrev Stale : Cache Row → Type 0
    Stale c = (lookup id c.rows ≡ some r) × (lookup id c.prints ≡ some (w.fingerprint f))
