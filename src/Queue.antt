-- ===== src/Queue.antt =====
-- internal/db/taskqueue.go, with the queues of internal/db/probe.go, thumbnail.go, people.go and tmdb.go: what
-- the SQL of each operation does to the table. A failing statement rolls back and changes nothing,
-- so only the operations that succeed are modelled; each is one transaction of one connection.
use file_fin.Prelude.{
  ℕ, ◌+◌, Bool, true, false, not, ◌&&◌, ◌||◌, Option, none, some, List, [], ◌∷◌, ◌++◌, Str, str_eq,
  bytes, length, keep, any, leb, ◌==◌, if◌then◌else◌,
}
pub mod Ownership
pub mod Oldest
pub mod Queues

-- A row. The columns that only some queues have are left out.
pub record Task : Type 0 where
  pub id : ℕ
  pub media_id : Str
  pub status : Str
  pub agent : Str
  pub error : Str

-- `next_id` is the AUTOINCREMENT counter.
pub record Table : Type 0 where
  pub rows : List Task
  pub next_id : ℕ

pub record TaskQueue : Type 0 where
  pub pending : Str
  pub active : Str
  pub errored : Str

abbrev probe_status_pending : Str
probe_status_pending = bytes "pending"

abbrev probe_status_probing : Str
probe_status_probing = bytes "probing"

abbrev probe_status_error : Str
probe_status_error = bytes "error"

abbrev pub probe_queue : TaskQueue
probe_queue = record {
  pending = probe_status_pending;
  active = probe_status_probing;
  errored = probe_status_error;
}

abbrev thumb_status_pending : Str
thumb_status_pending = bytes "pending"

abbrev thumb_status_generating : Str
thumb_status_generating = bytes "generating"

abbrev thumb_status_error : Str
thumb_status_error = bytes "error"

abbrev pub thumbnail_queue : TaskQueue
thumbnail_queue = record {
  pending = thumb_status_pending;
  active = thumb_status_generating;
  errored = thumb_status_error;
}

abbrev people_status_pending : Str
people_status_pending = bytes "pending"

abbrev people_status_resolving : Str
people_status_resolving = bytes "resolving"

abbrev people_status_error : Str
people_status_error = bytes "error"

abbrev pub people_queue : TaskQueue
people_queue = record {
  pending = people_status_pending;
  active = people_status_resolving;
  errored = people_status_error;
}

abbrev tmdb_status_pending : Str
tmdb_status_pending = bytes "pending"

abbrev tmdb_status_matching : Str
tmdb_status_matching = bytes "matching"

abbrev tmdb_status_error : Str
tmdb_status_error = bytes "error"

abbrev pub tmdb_queue : TaskQueue
tmdb_queue = record {
  pending = tmdb_status_pending;
  active = tmdb_status_matching;
  errored = tmdb_status_error;
}

-- `UPDATE ... SET ... WHERE ...`
unfoldable pub update : (Task → Bool) → (Task → Task) → List Task → List Task
update which set [] = []
update which set (t ∷ ts) = (if which t then set t else t) ∷ update which set ts

abbrev pub older : Task → Option Task → Task
older t none = t
older t (some u) = if leb t.id u.id then t else u

-- `SELECT ... WHERE status = ? ORDER BY id LIMIT 1`
unfoldable pub oldest : Str → List Task → Option Task
oldest status [] = none
oldest status (t ∷ ts) =
    let rest = oldest status ts in if str_eq t.status status then some (older t rest) else rest

abbrev pub activate : TaskQueue → Str → Task → Task
activate q agent t = record t { status = q.active; agent = agent; error = [] }

unfoldable pub claim_row : TaskQueue → Str → Table → Option Task → Table × Option ℕ
claim_row q agent tbl none = (tbl, none)
claim_row q agent tbl (some t) =
    (record tbl { rows = update (λ u. u.id == t.id) (activate q agent) tbl.rows }, some t.id)

unfoldable pub claim : TaskQueue → Str → Table → Table × Option ℕ
claim q agent tbl = claim_row q agent tbl (oldest q.pending tbl.rows)

unfoldable pub finish : ℕ → Table → Table
finish id tbl = record tbl { rows = keep (λ t. not (t.id == id)) tbl.rows }

abbrev pub mark_failed : TaskQueue → Str → Task → Task
mark_failed q msg t = record t { status = q.errored; agent = []; error = msg }

unfoldable pub fail : TaskQueue → ℕ → Str → Table → Table
fail q id msg tbl = record tbl { rows = update (λ t. t.id == id) (mark_failed q msg) tbl.rows }

unfoldable pub count_pending : TaskQueue → Table → ℕ
count_pending q tbl = length (keep (λ t. str_eq t.status q.pending) tbl.rows)

-- `pruneByMedia` without a further condition, as these queues call it.
unfoldable pub prune_by_media : TaskQueue → Str → Table → Table
prune_by_media q media tbl = record tbl {
  rows =
      keep
        (λ t.
          not (str_eq t.media_id media && (str_eq t.status q.pending || str_eq t.status q.errored)))
        tbl.rows;
}

unfoldable pub reset_active_to_pending : TaskQueue → Table → Table
reset_active_to_pending q tbl = record tbl {
  rows =
      update (λ t. str_eq t.status q.active) (λ t. record t { status = q.pending; agent = [] })
        tbl.rows;
}

unfoldable pub clear_all : Table → Table
clear_all tbl = record tbl { rows = [] }

abbrev pub insert_pending : TaskQueue → Str → Table → Table
insert_pending q media tbl = record {
  rows =
      tbl.rows
      ++ record { id = tbl.next_id; media_id = media; status = q.pending; agent = []; error = [] }
        ∷ [];
  next_id = tbl.next_id + 1;
}

-- `INSERT OR IGNORE`, the upsert of the probe and the thumbnail queue; media_id is unique.
unfoldable pub upsert_ignoring : TaskQueue → Str → Table → Table
upsert_ignoring q media tbl =
    if any (λ t. str_eq t.media_id media) tbl.rows then tbl else insert_pending q media tbl

-- `ON CONFLICT DO UPDATE ... WHERE status = error`, the upsert of the people and TMDb queues.
unfoldable pub upsert_rearming : TaskQueue → Str → Table → Table
upsert_rearming q media tbl =
    if any (λ t. str_eq t.media_id media) tbl.rows
    then record tbl {
      rows =
          update (λ t. str_eq t.media_id media && str_eq t.status q.errored)
            (λ t. record t { status = q.pending; error = [] }) tbl.rows;
    }
    else insert_pending q media tbl

pub data Op : Type 0 where
  upserted : Str → Op
  rearmed : Str → Op
  claimed : Str → Op
  finished : ℕ → Op
  failed : ℕ → Str → Op
  pruned : Str → Op
  restarted : Op
  cleared : Op

-- What an operation leaves, and the row it hands to an agent.
unfoldable pub step : TaskQueue → Op → Table → Table × Option ℕ
step q (upserted media) tbl = (upsert_ignoring q media tbl, none)
step q (rearmed media) tbl = (upsert_rearming q media tbl, none)
step q (claimed agent) tbl = claim q agent tbl
step q (finished id) tbl = (finish id tbl, none)
step q (failed id msg) tbl = (fail q id msg tbl, none)
step q (pruned media) tbl = (prune_by_media q media tbl, none)
step q restarted tbl = (reset_active_to_pending q tbl, none)
step q cleared tbl = (clear_all tbl, none)
