-- ===== src/Tests/Reconciling.antt =====
-- Tests of the reconciliation in internal/server/scan.go.
use file_fin.Prelude.{
  ℕ, ◌≡◌, refl, true, some, [], ◌∷◌, bytes, str_eq, lookup, insert, delete, Map, contains, Bool,
}
use file_fin.Discovery.Reconcile.{World, Cache, reconcile_diff, add_new, drop_gone, reconcile_item}
use file_fin.Discovery.Lost.{passes}

-- A folder is a number, which is its row; the database takes writes or does not.
abbrev world : Bool → World ℕ ℕ
world writable = record {
  read = λ f. some f;
  fingerprint = λ f. f ∷ [];
  repaired = λ f. 0;
  after_repair = λ f. f;
  inserted = λ id. writable;
  deleted = λ id. true;
  pruned = λ id. true;
  files_read = λ id. true;
  stamped = λ id. true;
}

abbrev refs : Map ℕ
refs = (bytes "alien", 7) ∷ (bytes "brazil", 8) ∷ []

abbrev cache : Cache ℕ
cache = record {
  rows = (bytes "brazil", 3) ∷ (bytes "contact", 4) ∷ [];
  prints = (bytes "brazil", 3 ∷ []) ∷ (bytes "contact", 4 ∷ []) ∷ [];
}

counted : (reconcile_diff (world true) refs cache).1 ≡ 1
unfolding reconcile_diff add_new drop_gone lookup insert delete str_eq contains
counted = refl

-- Without the failure the new row is written.
refreshed :
    lookup (bytes "brazil") (passes (bytes "brazil") 8 (world true ∷ []) cache).rows ≡ some 8
unfolding passes reconcile_item lookup insert str_eq
refreshed = refl
