-- ===== src/Queue/Ownership.antt =====
-- internal/db/taskqueue.go: a claimed row belongs to its agent.
use file_fin.Prelude.{
  ℕ, ◌<◌, ◌≡◌, ◌≢◌, refl, ◌∙◌, inl, inr, Bool, true, false, not, ◌&&◌, ◌||◌, Bool-cases, Option,
  none, some, List, [], ◌∷◌, ◌++◌, Str, str_eq, str_eq_iff, keep, any, ◌==◌, ==_iff, if◌then◌else◌,
  arith,
}
use file_fin.Queue.{
  Task, Table, TaskQueue, update, older, oldest, activate, claim_row, claim, finish, mark_failed,
  fail, prune_by_media, upsert_ignoring, upsert_rearming, insert_pending, Op, upserted, rearmed,
  claimed, finished, failed, pruned, restarted, cleared, step,
}

-- If this is row `i`, it is active and of agent `a`.
abbrev pub owned : TaskQueue → ℕ → Str → Task → Bool
owned q i a t = not (t.id == i) || (str_eq t.status q.active && str_eq t.agent a)

abbrev pub all_owned : TaskQueue → ℕ → Str → List Task → Bool
all_owned q i a [] = true
all_owned q i a (t ∷ ts) = owned q i a t && all_owned q i a ts

abbrev pub has_row : ℕ → List Task → Bool
has_row i [] = false
has_row i (t ∷ ts) = t.id == i || has_row i ts

-- Row `i` is in the table, active and of agent `a`.
pub record Owned (q : TaskQueue) (i : ℕ) (a : Str) (tbl : Table) : Type 0 where
  pub ours : all_owned q i a tbl.rows ≡ true
  pub there : has_row i tbl.rows ≡ true
  pub given : i < tbl.next_id

-- The operations that take a row from its agent are its own finish and failure, the restart and
-- the rebuild.
abbrev pub spares : ℕ → Op → Bool
spares i (finished id) = not (id == i)
spares i (failed id msg) = not (id == i)
spares i restarted = false
spares i cleared = false
spares i _ = true

module _ (q : TaskQueue) (i : ℕ) (a : Str) (pending-active : str_eq q.pending q.active ≡ false)
    (errored-active : str_eq q.errored q.active ≡ false) where
  update-owned :
      (which : Task → Bool) (set : Task → Task) (ts : List Task)
      → ((t : Task) → owned q i a t ≡ true → which t ≡ true → not (t.id == i) ≡ true)
      → ((t : Task) → (set t).id ≡ t.id)
      → all_owned q i a ts ≡ true
      → (all_owned q i a (update which set ts) ≡ true)
        × (has_row i (update which set ts) ≡ has_row i ts)
  unfolding update
  update-owned which set [] f g h = (refl, refl)
  update-owned which set (t ∷ ts) f g h =
      let (r, s) = update-owned which set ts f g (ground (arith, h)) in
      ground (arith, f t, g t, ==_iff t.id i, ==_iff (set t).id i)

  keep-owned :
      (stays : Task → Bool) (ts : List Task)
      → ((t : Task) → owned q i a t ≡ true → (t.id == i) ≡ true → stays t ≡ true)
      → all_owned q i a ts ≡ true
      → (all_owned q i a (keep stays ts) ≡ true) × (has_row i (keep stays ts) ≡ has_row i ts)
  unfolding keep
  keep-owned stays [] f h = (refl, refl)
  keep-owned stays (t ∷ ts) f h =
      let (r, s) = keep-owned stays ts f (ground (arith, h)) in ground (arith, f t, ==_iff t.id i)

  append-owned :
      (ts : List Task) (t : Task)
      → not (t.id == i) ≡ true
      → all_owned q i a ts ≡ true
      → (all_owned q i a (ts ++ t ∷ []) ≡ true) × (has_row i (ts ++ t ∷ []) ≡ has_row i ts)
  append-owned [] t n h = ground (arith, ==_iff t.id i)
  append-owned (u ∷ ts) t n h = let (r, s) = append-owned ts t n (ground (arith, h)) in ground arith

  spared : Option Task → Bool
  spared none = true
  spared (some t) = not (t.id == i)

  older-spared :
      (t : Task) (o : Option Task)
      → not (t.id == i) ≡ true
      → spared o ≡ true
      → spared (some (older t o)) ≡ true
  unfolding spared
  older-spared t none h k = h
  older-spared t (some u) h k = ground arith

  unowned :
      (status : Str) (t : Task)
      → str_eq status q.active ≡ false
      → owned q i a t ≡ true
      → str_eq t.status status ≡ true
      → not (t.id == i) ≡ true
  unowned status t n h e =
      let same : t.status ≡ status = (str_eq_iff t.status status).0 e in
      let off : str_eq t.status q.active ≡ false = rw same n in ground (arith, h, off)

  -- No claim takes an owned row, since it is not pending.
  oldest-spared : (ts : List Task) → all_owned q i a ts ≡ true → spared (oldest q.pending ts) ≡ true
  unfolding spared oldest
  oldest-spared [] h = refl
  oldest-spared (u ∷ ts) h =
      let ih = oldest-spared ts (ground (arith, h)) in
      elim (Bool-cases (str_eq u.status q.pending)) [
        | inr e ↦ rw (e, oldest) ih
        | inl e ↦
            rw (e, oldest)
              (older-spared u (oldest q.pending ts)
                (unowned q.pending u pending-active (ground (arith, h)) e) ih)
      ]

  update-Owned :
      (which : Task → Bool) (set : Task → Task) (tbl : Table)
      → ((t : Task) → owned q i a t ≡ true → which t ≡ true → not (t.id == i) ≡ true)
      → ((t : Task) → (set t).id ≡ t.id)
      → Owned q i a tbl
      → Owned q i a (record tbl { rows = update which set tbl.rows })
  update-Owned which set tbl f g w =
      let (r, s) = update-owned which set tbl.rows f g w.ours in
      record { ours = r; there = s ∙ w.there; given = w.given }

  keep-Owned :
      (stays : Task → Bool) (tbl : Table)
      → ((t : Task) → owned q i a t ≡ true → (t.id == i) ≡ true → stays t ≡ true)
      → Owned q i a tbl
      → Owned q i a (record tbl { rows = keep stays tbl.rows })
  keep-Owned stays tbl f w =
      let (r, s) = keep-owned stays tbl.rows f w.ours in
      record { ours = r; there = s ∙ w.there; given = w.given }

  insert_pending-Owned :
      (media : Str) (tbl : Table) → Owned q i a tbl → Owned q i a (insert_pending q media tbl)
  insert_pending-Owned media tbl w =
      let new : Task = record {
        id = tbl.next_id;
        media_id = media;
        status = q.pending;
        agent = [];
        error = [];
      } in
      let (r, s) = append-owned tbl.rows new (ground (arith, w.given)) w.ours in
      record { ours = r; there = s ∙ w.there; given = omega (arith, w.given) }

  if-Owned :
      (b : Bool) (x y : Table) → Owned q i a x → Owned q i a y → Owned q i a (if b then x else y)
  if-Owned true x y v w = v
  if-Owned false x y v w = w

  claim_row-Owned :
      (agent : Str) (tbl : Table) (o : Option Task)
      → spared o ≡ true
      → Owned q i a tbl
      → Owned q i a (claim_row q agent tbl o).0 × ((claim_row q agent tbl o).1 ≢ some i)
  unfolding claim_row spared
  claim_row-Owned agent tbl none h w = (w, λ e. cc)
  claim_row-Owned agent tbl (some t) h w = (
    update-Owned (λ u. u.id == t.id) (activate q agent) tbl (λ u _ e. ground (arith, h, e))
        (λ u. refl) w,
    λ e. let same : t.id ≡ i = cc in ground (arith, h, same),
  )

  pub step-Owned :
      (op : Op) (tbl : Table)
      → spares i op ≡ true
      → Owned q i a tbl
      → Owned q i a (step q op tbl).0 × ((step q op tbl).1 ≢ some i)
  unfolding step claim finish fail prune_by_media upsert_ignoring upsert_rearming
  step-Owned (claimed agent) tbl h w =
      claim_row-Owned agent tbl (oldest q.pending tbl.rows) (oldest-spared tbl.rows w.ours) w
  step-Owned (finished id) tbl h w =
      (keep-Owned (λ t. not (t.id == id)) tbl (λ t _ e. ground (arith, h, e)) w, λ e. cc)
  step-Owned (failed id msg) tbl h w = (
    update-Owned (λ t. t.id == id) (mark_failed q msg) tbl (λ t _ e. ground (arith, h, e))
        (λ t. refl) w,
    λ e. cc,
  )
  step-Owned (pruned media) tbl h w = (
    keep-Owned _ tbl
        (λ t o e.
          ground
            (arith, e, unowned q.pending t pending-active o, unowned q.errored t errored-active o))
        w,
    λ e. cc,
  )
  step-Owned (upserted media) tbl h w = (
    if-Owned (any (λ t. str_eq t.media_id media) tbl.rows) tbl (insert_pending q media tbl) w
        (insert_pending-Owned media tbl w),
    λ e. cc,
  )
  step-Owned (rearmed media) tbl h w = (
    if-Owned (any (λ t. str_eq t.media_id media) tbl.rows) _ (insert_pending q media tbl)
        (update-Owned (λ t. str_eq t.media_id media && str_eq t.status q.errored)
          (λ t. record t { status = q.pending; error = [] }) tbl
          (λ t o e. unowned q.errored t errored-active o (ground (arith, e))) (λ t. refl) w)
        (insert_pending-Owned media tbl w),
    λ e. cc,
  )
  step-Owned restarted tbl h w = cc
  step-Owned cleared tbl h w = cc
