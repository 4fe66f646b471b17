-- ===== src/Queue/Queues.antt =====
-- internal/db/probe.go, thumbnail.go, people.go and tmdb.go: the queues of folders, as instances
-- of one interface. Of the row that a claim returns the id is kept.
use file_fin.Prelude.{
  ℕ, ◌≡◌, ◌≢◌, refl, sym, subst, ◌∙◌, true, false, Option, none, some, List, [], ◌∷◌, Str, str_eq,
  All,
}
use file_fin.Queue.{
  Table, TaskQueue, probe_queue, thumbnail_queue, people_queue, tmdb_queue, claim, finish, fail,
  count_pending, prune_by_media, reset_active_to_pending, clear_all, upsert_ignoring,
  upsert_rearming, Op, upserted, rearmed, claimed, finished, failed, pruned, restarted, cleared,
  step,
}
use file_fin.Queue.Ownership.{Owned, spares, step-Owned}

unfoldable pub upsert_pending_probe : Str → Table → Table
upsert_pending_probe media tbl = upsert_ignoring probe_queue media tbl

unfoldable pub claim_next_probe : Str → Table → Table × Option ℕ
claim_next_probe agent tbl = claim probe_queue agent tbl

unfoldable pub finish_probe : ℕ → Table → Table
finish_probe id tbl = finish id tbl

unfoldable pub fail_probe : ℕ → Str → Table → Table
fail_probe id msg tbl = fail probe_queue id msg tbl

unfoldable pub count_pending_probe : Table → ℕ
count_pending_probe tbl = count_pending probe_queue tbl

unfoldable pub prune_probe : Str → Table → Table
prune_probe media tbl = prune_by_media probe_queue media tbl

unfoldable pub reset_probing_to_pending : Table → Table
reset_probing_to_pending tbl = reset_active_to_pending probe_queue tbl

unfoldable pub clear_probe_tasks_all : Table → Table
clear_probe_tasks_all tbl = clear_all tbl

unfoldable pub upsert_pending_thumbnail : Str → Table → Table
upsert_pending_thumbnail media tbl = upsert_ignoring thumbnail_queue media tbl

unfoldable pub claim_next_thumbnail : Str → Table → Table × Option ℕ
claim_next_thumbnail agent tbl = claim thumbnail_queue agent tbl

unfoldable pub finish_thumbnail : ℕ → Table → Table
finish_thumbnail id tbl = finish id tbl

unfoldable pub fail_thumbnail : ℕ → Str → Table → Table
fail_thumbnail id msg tbl = fail thumbnail_queue id msg tbl

unfoldable pub count_pending_thumbnail : Table → ℕ
count_pending_thumbnail tbl = count_pending thumbnail_queue tbl

unfoldable pub prune_thumbnail : Str → Table → Table
prune_thumbnail media tbl = prune_by_media thumbnail_queue media tbl

unfoldable pub reset_generating_to_pending : Table → Table
reset_generating_to_pending tbl = reset_active_to_pending thumbnail_queue tbl

unfoldable pub clear_thumbnail_tasks_all : Table → Table
clear_thumbnail_tasks_all tbl = clear_all tbl

unfoldable pub upsert_pending_people : Str → Table → Table
upsert_pending_people media tbl = upsert_rearming people_queue media tbl

unfoldable pub claim_next_people : Str → Table → Table × Option ℕ
claim_next_people agent tbl = claim people_queue agent tbl

unfoldable pub finish_people : ℕ → Table → Table
finish_people id tbl = finish id tbl

unfoldable pub fail_people : ℕ → Str → Table → Table
fail_people id msg tbl = fail people_queue id msg tbl

unfoldable pub count_pending_people : Table → ℕ
count_pending_people tbl = count_pending people_queue tbl

unfoldable pub prune_people : Str → Table → Table
prune_people media tbl = prune_by_media people_queue media tbl

unfoldable pub reset_resolving_to_pending : Table → Table
reset_resolving_to_pending tbl = reset_active_to_pending people_queue tbl

unfoldable pub clear_people_tasks_all : Table → Table
clear_people_tasks_all tbl = clear_all tbl

unfoldable pub upsert_pending_tmdb : Str → Table → Table
upsert_pending_tmdb media tbl = upsert_rearming tmdb_queue media tbl

unfoldable pub claim_next_tmdb : Str → Table → Table × Option ℕ
claim_next_tmdb agent tbl = claim tmdb_queue agent tbl

unfoldable pub finish_tmdb : ℕ → Table → Table
finish_tmdb id tbl = finish id tbl

unfoldable pub fail_tmdb : ℕ → Str → Table → Table
fail_tmdb id msg tbl = fail tmdb_queue id msg tbl

unfoldable pub count_pending_tmdb : Table → ℕ
count_pending_tmdb tbl = count_pending tmdb_queue tbl

unfoldable pub prune_tmdb : Str → Table → Table
prune_tmdb media tbl = prune_by_media tmdb_queue media tbl

unfoldable pub reset_matching_to_pending : Table → Table
reset_matching_to_pending tbl = reset_active_to_pending tmdb_queue tbl

unfoldable pub clear_tmdb_tasks_all : Table → Table
clear_tmdb_tasks_all tbl = clear_all tbl

-- What the agents and the scan use of a queue.
pub record QueueApi : Type 0 where
  pub upsert : Str → Table → Table
  pub claim_next : Str → Table → Table × Option ℕ
  pub finish_task : ℕ → Table → Table
  pub fail_task : ℕ → Str → Table → Table
  pub prune_media : Str → Table → Table
  pub reset : Table → Table
  pub clear : Table → Table

pub data Kind : Type 0 where
  probes thumbnails people tmdb : Kind

unfoldable pub api : Kind → QueueApi
unfolding upsert_pending_thumbnail claim_next_thumbnail finish_thumbnail fail_thumbnail
    prune_thumbnail reset_generating_to_pending clear_thumbnail_tasks_all upsert_pending_probe
    claim_next_probe finish_probe fail_probe prune_probe reset_probing_to_pending
    clear_probe_tasks_all upsert_pending_people claim_next_people finish_people fail_people
    prune_people reset_resolving_to_pending clear_people_tasks_all upsert_pending_tmdb
    claim_next_tmdb finish_tmdb fail_tmdb prune_tmdb reset_matching_to_pending clear_tmdb_tasks_all
api probes = record {
  upsert = upsert_pending_probe;
  claim_next = claim_next_probe;
  finish_task = finish_probe;
  fail_task = fail_probe;
  prune_media = prune_probe;
  reset = reset_probing_to_pending;
  clear = clear_probe_tasks_all;
}
api thumbnails = record {
  upsert = upsert_pending_thumbnail;
  claim_next = claim_next_thumbnail;
  finish_task = finish_thumbnail;
  fail_task = fail_thumbnail;
  prune_media = prune_thumbnail;
  reset = reset_generating_to_pending;
  clear = clear_thumbnail_tasks_all;
}
api people = record {
  upsert = upsert_pending_people;
  claim_next = claim_next_people;
  finish_task = finish_people;
  fail_task = fail_people;
  prune_media = prune_people;
  reset = reset_resolving_to_pending;
  clear = clear_people_tasks_all;
}
api tmdb = record {
  upsert = upsert_pending_tmdb;
  claim_next = claim_next_tmdb;
  finish_task = finish_tmdb;
  fail_task = fail_tmdb;
  prune_media = prune_tmdb;
  reset = reset_matching_to_pending;
  clear = clear_tmdb_tasks_all;
}

abbrev pub queue_of : Kind → TaskQueue
queue_of probes = probe_queue
queue_of thumbnails = thumbnail_queue
queue_of people = people_queue
queue_of tmdb = tmdb_queue

-- An operation of the table is a call of the interface; both upserts stand for its one.
unfoldable pub call : QueueApi → Op → Table → Table × Option ℕ
call q (upserted media) tbl = (q.upsert media tbl, none)
call q (rearmed media) tbl = (q.upsert media tbl, none)
call q (claimed agent) tbl = q.claim_next agent tbl
call q (finished id) tbl = (q.finish_task id tbl, none)
call q (failed id msg) tbl = (q.fail_task id msg tbl, none)
call q (pruned media) tbl = (q.prune_media media tbl, none)
call q restarted tbl = (q.reset tbl, none)
call q cleared tbl = (q.clear tbl, none)

unfoldable pub calls : QueueApi → List Op → Table → Table × List (Option ℕ)
unfolding call
calls q [] tbl = (tbl, [])
calls q (op ∷ ops) tbl =
    let (tbl', id) = call q op tbl in let (end, ids) = calls q ops tbl' in (end, id ∷ ids)

-- The upsert that the queue uses.
abbrev native : Kind → Op → Op
native probes (rearmed media) = upserted media
native thumbnails (rearmed media) = upserted media
native people (upserted media) = rearmed media
native tmdb (upserted media) = rearmed media
native k op = op

call-step :
    (k : Kind) (op : Op) (tbl : Table) → call (api k) op tbl ≡ step (queue_of k) (native k op) tbl
unfolding call api step
call-step probes (upserted media) tbl = refl
call-step probes (rearmed media) tbl = refl
call-step probes (claimed agent) tbl = refl
call-step probes (finished id) tbl = refl
call-step probes (failed id msg) tbl = refl
call-step probes (pruned media) tbl = refl
call-step probes restarted tbl = refl
call-step probes cleared tbl = refl
call-step thumbnails (upserted media) tbl = refl
call-step thumbnails (rearmed media) tbl = refl
call-step thumbnails (claimed agent) tbl = refl
call-step thumbnails (finished id) tbl = refl
call-step thumbnails (failed id msg) tbl = refl
call-step thumbnails (pruned media) tbl = refl
call-step thumbnails restarted tbl = refl
call-step thumbnails cleared tbl = refl
call-step people (upserted media) tbl = refl
call-step people (rearmed media) tbl = refl
call-step people (claimed agent) tbl = refl
call-step people (finished id) tbl = refl
call-step people (failed id msg) tbl = refl
call-step people (pruned media) tbl = refl
call-step people restarted tbl = refl
call-step people cleared tbl = refl
call-step tmdb (upserted media) tbl = refl
call-step tmdb (rearmed media) tbl = refl
call-step tmdb (claimed agent) tbl = refl
call-step tmdb (finished id) tbl = refl
call-step tmdb (failed id msg) tbl = refl
call-step tmdb (pruned media) tbl = refl
call-step tmdb restarted tbl = refl
call-step tmdb cleared tbl = refl

spares-native : (k : Kind) (i : ℕ) (op : Op) → spares i (native k op) ≡ spares i op
spares-native probes i (upserted media) = refl
spares-native probes i (rearmed media) = refl
spares-native probes i (claimed agent) = refl
spares-native probes i (finished id) = refl
spares-native probes i (failed id msg) = refl
spares-native probes i (pruned media) = refl
spares-native probes i restarted = refl
spares-native probes i cleared = refl
spares-native thumbnails i (upserted media) = refl
spares-native thumbnails i (rearmed media) = refl
spares-native thumbnails i (claimed agent) = refl
spares-native thumbnails i (finished id) = refl
spares-native thumbnails i (failed id msg) = refl
spares-native thumbnails i (pruned media) = refl
spares-native thumbnails i restarted = refl
spares-native thumbnails i cleared = refl
spares-native people i (upserted media) = refl
spares-native people i (rearmed media) = refl
spares-native people i (claimed agent) = refl
spares-native people i (finished id) = refl
spares-native people i (failed id msg) = refl
spares-native people i (pruned media) = refl
spares-native people i restarted = refl
spares-native people i cleared = refl
spares-native tmdb i (upserted media) = refl
spares-native tmdb i (rearmed media) = refl
spares-native tmdb i (claimed agent) = refl
spares-native tmdb i (finished id) = refl
spares-native tmdb i (failed id msg) = refl
spares-native tmdb i (pruned media) = refl
spares-native tmdb i restarted = refl
spares-native tmdb i cleared = refl

apart :
    (k : Kind)
    → (str_eq (queue_of k).pending (queue_of k).active ≡ false)
      × (str_eq (queue_of k).errored (queue_of k).active ≡ false)
unfolding str_eq
apart probes = (refl, refl)
apart thumbnails = (refl, refl)
apart people = (refl, refl)
apart tmdb = (refl, refl)

-- In the probe, the thumbnail, the people and the TMDb queue a row that an agent has claimed stays with the agent
-- through any calls, and is handed out to no other, until it is finished or failed or the server
-- starts again or clears the queue.
pub calls-Owned :
    (k : Kind) (i : ℕ) (a : Str) (ops : List Op) (tbl : Table)
    → All (λ op. spares i op ≡ true) ops
    → Owned (queue_of k) i a tbl
    → Owned (queue_of k) i a (calls (api k) ops tbl).0
      × All (λ id. id ≢ some i) (calls (api k) ops tbl).1
unfolding calls
calls-Owned k i a [] tbl h w = (w, tt)
calls-Owned k i a (op ∷ ops) tbl (h, hs) w =
    let (pending_apart, errored_apart) = apart k in
    let (w', n) =
      subst (λ r. Owned (queue_of k) i a r.0 × (r.1 ≢ some i)) (sym (call-step k op tbl))
        (step-Owned (queue_of k) i a pending_apart errored_apart (native k op) tbl
          (spares-native k i op ∙ h) w) in
    let (end, ns) = calls-Owned k i a ops (call (api k) op tbl).0 hs w' in (end, (n, ns))
