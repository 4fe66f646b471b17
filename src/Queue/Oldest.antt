-- ===== src/Queue/Oldest.antt =====
-- internal/db/taskqueue.go: which row a claim takes.
use file_fin.Prelude.{
  ℕ, ◌<◌, ◌≤◌, ◌≡◌, refl, ◌∙◌, inl, inr, ◌⊎◌, Bool, true, false, not, ◌&&◌, ◌||◌, Bool-cases,
  Option, none, some, List, [], ◌∷◌, Str, str_eq, str_eq_self, keep, length, leb, ltb, ◌==◌, ==_iff,
  arith,
}
use file_fin.Queue.{
  Task, Table, TaskQueue, update, older, oldest, activate, claim_row, claim, count_pending,
}
use file_fin.Queue.Ownership.{all_owned, has_row, Owned}

-- Every id has been given out before.
abbrev pub all_given : ℕ → List Task → Bool
all_given n [] = true
all_given n (t ∷ ts) = ltb t.id n && all_given n ts

-- A row of this status with this id is in the table.
abbrev pub stands : Str → ℕ → List Task → Bool
stands status i [] = false
stands status i (t ∷ ts) = (t.id == i && str_eq t.status status) || stands status i ts

-- No row of this status has a smaller id.
abbrev pub none_before : Str → ℕ → List Task → Bool
none_before status i [] = true
none_before status i (t ∷ ts) =
    (not (str_eq t.status status) || leb i t.id) && none_before status i ts

abbrev none_of : Str → List Task → Bool
none_of status [] = true
none_of status (t ∷ ts) = not (str_eq t.status status) && none_of status ts

abbrev Oldest : Str → List Task → Option Task → Type 0
Oldest status ts none = none_of status ts ≡ true
Oldest status ts (some t) = (stands status t.id ts ≡ true) × (none_before status t.id ts ≡ true)

none_before-le :
    (status : Str) (i j : ℕ) (ts : List Task)
    → i ≤ j
    → none_before status j ts ≡ true
    → none_before status i ts ≡ true
none_before-le status i j [] h k = refl
none_before-le status i j (t ∷ ts) h k = ground (arith, none_before-le status i j ts h)

none_before-none_of :
    (status : Str) (i : ℕ) (ts : List Task)
    → none_of status ts ≡ true
    → none_before status i ts ≡ true
none_before-none_of status i [] h = refl
none_before-none_of status i (t ∷ ts) h = ground (arith, none_before-none_of status i ts)

older-Oldest :
    (status : Str) (u : Task) (ts : List Task) (o : Option Task)
    → str_eq u.status status ≡ true
    → Oldest status ts o
    → Oldest status (u ∷ ts) (some (older u o))
older-Oldest status u ts none e h =
    ground (arith, none_before-none_of status u.id ts h, ==_iff u.id u.id)
older-Oldest status u ts (some t) e (h, k) =
    ground (arith, none_before-le status u.id t.id ts, ==_iff u.id u.id)

skip-Oldest :
    (status : Str) (u : Task) (ts : List Task) (o : Option Task)
    → str_eq u.status status ≡ false
    → Oldest status ts o
    → Oldest status (u ∷ ts) o
skip-Oldest status u ts none e h = ground arith
skip-Oldest status u ts (some t) e (h, k) = ground arith

oldest-Oldest : (status : Str) (ts : List Task) → Oldest status ts (oldest status ts)
unfolding oldest
oldest-Oldest status [] = refl
oldest-Oldest status (u ∷ ts) = elim (Bool-cases (str_eq u.status status)) [
  | inl e ↦ rw (e, oldest) (older-Oldest status u ts (oldest status ts) e (oldest-Oldest status ts))
  | inr e ↦ rw (e, oldest) (skip-Oldest status u ts (oldest status ts) e (oldest-Oldest status ts))
]

-- After the claim, what was row `i` is the agent's.
activate-owned :
    (q : TaskQueue) (agent : Str) (i : ℕ) (ts : List Task)
    → (all_owned q i agent (update (λ u. u.id == i) (activate q agent) ts) ≡ true)
      × (has_row i (update (λ u. u.id == i) (activate q agent) ts) ≡ has_row i ts)
unfolding update
activate-owned q agent i [] = (refl, refl)
activate-owned q agent i (t ∷ ts) =
    let (r, s) = activate-owned q agent i ts in
    ground (arith, str_eq_self q.active, str_eq_self agent)

stands-has_row :
    (status : Str) (i n : ℕ) (ts : List Task)
    → all_given n ts ≡ true
    → stands status i ts ≡ true
    → (has_row i ts ≡ true) × (i < n)
stands-has_row status i n [] g h = cc
stands-has_row status i n (t ∷ ts) g h = ground (arith, stands-has_row status i n ts, ==_iff t.id i)

length-none_of :
    (status : Str) (ts : List Task)
    → none_of status ts ≡ true
    → length (keep (λ t. str_eq t.status status) ts) ≡ 0
unfolding keep
length-none_of status [] h = refl
length-none_of status (t ∷ ts) h = ground (arith, length-none_of status ts)

-- A claim hands out the pending row of the least id, and then the row is in the table, active and
-- the agent's; a claim that hands out none leaves the table as it is, where no row is pending.
pub claim-oldest :
    (q : TaskQueue) (agent : Str) (tbl : Table)
    → all_given tbl.next_id tbl.rows ≡ true
    → ((claim q agent tbl ≡ (tbl, none)) × (count_pending q tbl ≡ 0))
      ⊎ ((i : ℕ) × ((claim q agent tbl).1 ≡ some i)
          × (stands q.pending i tbl.rows ≡ true)
          × (none_before q.pending i tbl.rows ≡ true)
          × Owned q i agent (claim q agent tbl).0)
unfolding claim claim_row count_pending
claim-oldest q agent tbl g =
    claimed_row (oldest q.pending tbl.rows) (oldest-Oldest q.pending tbl.rows)
  where
    claimed_row :
        (o : Option Task)
        → Oldest q.pending tbl.rows o
        → ((claim_row q agent tbl o ≡ (tbl, none)) × (count_pending q tbl ≡ 0))
          ⊎ ((i : ℕ) × ((claim_row q agent tbl o).1 ≡ some i)
              × (stands q.pending i tbl.rows ≡ true)
              × (none_before q.pending i tbl.rows ≡ true)
              × Owned q i agent (claim_row q agent tbl o).0)
    claimed_row none h = inl (refl, length-none_of q.pending tbl.rows h)
    claimed_row (some t) (h, k) =
        let (r, s) = activate-owned q agent t.id tbl.rows in
        let (there, given) = stands-has_row q.pending t.id tbl.next_id tbl.rows g h in
        inr (t.id, refl, h, k, record { ours = r; there = s ∙ there; given = given })
