-- ===== src/Tests/Queueing.antt =====
-- Tests of the task queues (internal/db/taskqueue.go).
use file_fin.Prelude.{
  ℕ, ◌≡◌, ◌≢◌, refl, true, ◌⊎◌, none, some, List, [], ◌∷◌, str_eq, bytes, All, arith,
}
use file_fin.Queue.{
  Table, Op, upserted, claimed, failed, pruned, probe_queue, claim, claim_row, oldest,
  count_pending,
}
use file_fin.Queue.Ownership.{Owned}
use file_fin.Queue.Queues.{probes, api, calls, calls-Owned}
use file_fin.Queue.Oldest.{stands, none_before, claim-oldest}

abbrev folders : Table
folders = record {
  rows =
      record {
        id = 4;
        media_id = bytes "m1";
        status = bytes "probing";
        agent = bytes "a";
        error = [];
      }
      ∷ record { id = 5; media_id = bytes "m2"; status = bytes "pending"; agent = []; error = [] }
      ∷ [];
  next_id = 6;
}

abbrev ops : List Op
ops =
    claimed (bytes "b")
    ∷ upserted (bytes "m1")
    ∷ pruned (bytes "m1")
    ∷ failed 5 (bytes "no video")
    ∷ claimed (bytes "c")
    ∷ []

calls-Owned_example :
    Owned probe_queue 4 (bytes "a") (calls (api probes) ops folders).0
    × All (λ id. id ≢ some 4) (calls (api probes) ops folders).1
unfolding str_eq
calls-Owned_example =
    calls-Owned probes 4 (bytes "a") ops folders (refl, (refl, (refl, (refl, (refl, tt)))))
      (record { ours = refl; there = refl; given = omega arith })

claim-oldest_example :
    ((claim probe_queue (bytes "b") folders ≡ (folders, none))
      × (count_pending probe_queue folders ≡ 0))
    ⊎ ((i : ℕ) × ((claim probe_queue (bytes "b") folders).1 ≡ some i)
        × (stands probe_queue.pending i folders.rows ≡ true)
        × (none_before probe_queue.pending i folders.rows ≡ true)
        × Owned probe_queue i (bytes "b") (claim probe_queue (bytes "b") folders).0)
claim-oldest_example = claim-oldest probe_queue (bytes "b") folders refl

-- The second row is the only pending one.
claims_pending : (claim probe_queue (bytes "b") folders).1 ≡ some 5
unfolding claim claim_row oldest str_eq
claims_pending = refl
