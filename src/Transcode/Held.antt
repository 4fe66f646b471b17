-- ===== src/Transcode/Held.antt =====
-- internal/transcode/hls.go: what the sessions hold, and what a change of the store or of the table
-- does to it.
use file_fin.Prelude.{
  ℕ, zero, suc, ◌≡◌, refl, ◌⊎◌, inl, inr, Bool, true, false, not, ◌||◌, none, some, List, [], ◌∷◌,
  ◌++◌, get_elem?, set, length, any, keep, All, ◌==◌, Bool-cases, Str, str_eq, Map, lookup, insert,
  sweep, arith,
}
use file_fin.Transcode.Sessions.{Session, Manager, values, at, release, idle, reap, close}

module _ (p : Session → Bool) where
  -- A session of the store changes.
  pub at-set :
      (store : List Session) (i j : ℕ) (s t : Session)
      → get_elem? store i ≡ some s
      → (p s ≡ true → p t ≡ true)
      → at p store j ≡ true
      → at p (set store i t) j ≡ true
  at-set [] i j s t e f h = cc
  at-set (x ∷ store) zero zero s t e f h = let same : x ≡ s = cc in f (cc)
  at-set (x ∷ store) zero (suc j) s t e f h = h
  at-set (x ∷ store) (suc i) zero s t e f h = h
  at-set (x ∷ store) (suc i) (suc j) s t e f h = at-set store i j s t e f h

  pub at-set_self :
      (store : List Session) (i : ℕ) (s t : Session)
      → get_elem? store i ≡ some s
      → p t ≡ true
      → at p (set store i t) i ≡ true
  at-set_self [] i s t e h = cc
  at-set_self (x ∷ store) zero s t e h = h
  at-set_self (x ∷ store) (suc i) s t e h = at-set_self store i s t e h

  pub at-append :
      (store more : List Session) (j : ℕ) → at p store j ≡ true → at p (store ++ more) j ≡ true
  at-append [] more j h = cc
  at-append (x ∷ store) more zero h = h
  at-append (x ∷ store) more (suc j) h = at-append store more j h

  pub at-append_new :
      (store : List Session) (s : Session) → at p (store ++ s ∷ []) (length store) ≡ p s
  at-append_new [] s = refl
  at-append_new (x ∷ store) s = at-append_new store s

module _ (q : ℕ → Bool) where
  pub any-insert_new :
      (key : Str) (i : ℕ) (m : Map ℕ)
      → lookup key m ≡ none
      → any q (values (insert key i m)) ≡ any q (values m) || q i
  unfolding any insert lookup
  any-insert_new key i [] h = ground arith
  any-insert_new key i ((k, j) ∷ m) h = ground (arith, any-insert_new key i m)

  any-sweep :
      (drop : ℕ → Bool) (m : Map ℕ)
      → any q (keep drop (values m)) ≡ false
      → any q (values m) ≡ true
      → any q (values (sweep drop m)) ≡ true
  unfolding any sweep keep
  any-sweep drop [] g a = a
  any-sweep drop ((k, i) ∷ m) g a = elim (Bool-cases (drop i)) [
    | inl e ↦
        let g' : q i || any q (keep drop (values m)) ≡ false = rw e at g in
        rw e (any-sweep drop m (ground arith) (ground arith))
    | inr e ↦ rw e (ground (arith, any-sweep drop m))
  ]

  pub any-append : (xs ys : List ℕ) → any q (xs ++ ys) ≡ any q xs || any q ys
  unfolding any
  any-append [] ys = refl
  any-append (x ∷ xs) ys = ground (arith, any-append xs ys)

  pub any_mono :
      (q' : ℕ → Bool) (xs : List ℕ)
      → ((i : ℕ) → q i ≡ true → q' i ≡ true)
      → any q xs ≡ true
      → any q' xs ≡ true
  unfolding any
  any_mono q' [] f h = h
  any_mono q' (x ∷ xs) f h = elim (Bool-cases (q x)) [
    | inl e ↦ rw (f x e) refl
    | inr e ↦ let h' : any q xs ≡ true = rw e at h in ground (arith, any_mono q' xs f h')
  ]

-- Some pointer of the table, or of a request that has yet to publish or discard it, passes.
abbrev pub Reaches : (ℕ → Bool) → Manager → Type 0
Reaches q m = any q (values m.sessions) || (any q m.held || any q m.losers) ≡ true

abbrev pub Owned : (Session → Bool) → Manager → Type 0
Owned p m = Reaches (at p m.store) m

abbrev pub OwnedDir : Manager → Str → Type 0
OwnedDir m d = Owned (λ s. str_eq s.dir d) m

abbrev pub Late : Manager → ℕ → Type 0
Late m r = any (λ x. x == r) m.late ≡ true

abbrev pub OwnedRun : Manager → ℕ → Type 0
OwnedRun m r = Owned (λ s. s.run == r) m ⊎ Late m r

-- Every folder on disk belongs to a session, and every encoder that runs belongs to one or was started
-- for one that had left the table.
abbrev pub NoLeak : Manager → Type 0
NoLeak m = All (OwnedDir m) m.dirs × All (OwnedRun m) m.runs

-- What is kept by a test passes on what it had, if the test gives the rest.
pub All-keep {ℓ κ μ} :
    {A : Type ℓ} (P : A → Type κ) (Q : A → Type μ) (test : A → Bool) (xs : List A)
    → ((x : A) → test x ≡ true → P x → Q x)
    → All P xs
    → All Q (keep test xs)
unfolding keep
All-keep P Q test [] f h = tt
All-keep P Q test (x ∷ xs) f h = elim (Bool-cases (test x)) [
  | inl e ↦ rw e (f x e h.0, All-keep P Q test xs f h.1)
  | inr e ↦ rw e (All-keep P Q test xs f h.1)
]

pub All-map {ℓ κ μ} :
    {A : Type ℓ} (P : A → Type κ) (Q : A → Type μ) (xs : List A)
    → ((x : A) → P x → Q x)
    → All P xs
    → All Q xs
All-map P Q [] f h = tt
All-map P Q (x ∷ xs) f h = (f x h.0, All-map P Q xs f h.1)

-- A change that leaves every folder and every run with an owner keeps the invariant.
pub NoLeak-map :
    (m m' : Manager)
    → m'.dirs ≡ m.dirs
    → m'.runs ≡ m.runs
    → ((d : Str) → OwnedDir m d → OwnedDir m' d)
    → ((r : ℕ) → OwnedRun m r → OwnedRun m' r)
    → NoLeak m
    → NoLeak m'
NoLeak-map m m' same_dirs same_runs f g h =
    rw (same_dirs, same_runs)
      (
        All-map (OwnedDir m) (OwnedDir m') m.dirs f h.0,
        All-map (OwnedRun m) (OwnedRun m') m.runs g h.1,
      )

-- The store changes, and each session has what it had.
pub Owned-store :
    (p : Session → Bool) (m : Manager) (store : List Session)
    → ((i : ℕ) → at p m.store i ≡ true → at p store i ≡ true)
    → Owned p m
    → Owned p (record m { store = store })
Owned-store p m store f o =
    let q = at p m.store in
    let q' = at p store in
    ground (
      arith,
      o,
      any_mono q q' (values m.sessions) f,
      any_mono q q' m.held f,
      any_mono q q' m.losers f,
    )

-- A change of the tables that reaches what the others reach, and lets go of what a list holds.
pub release-NoLeak :
    (gone : List ℕ) (m m' : Manager)
    → m'.dirs ≡ m.dirs
    → m'.runs ≡ m.runs
    → m'.late ≡ m.late
    → m'.store ≡ m.store
    → ((q : ℕ → Bool) → any q gone ≡ false → Reaches q m → Reaches q m')
    → NoLeak m
    → NoLeak (release gone m')
unfolding release
release-NoLeak gone m m' same_dirs same_runs same_late same_store keeps h =
    rw (same_dirs, same_runs, same_late, same_store)
      (
        All-keep (OwnedDir m) (λ d. Reaches (at (λ s. str_eq s.dir d) m.store) m')
            (λ d. not (any (at (λ s. str_eq s.dir d) m.store) gone)) m.dirs
            (λ d e o. keeps (at (λ s. str_eq s.dir d) m.store) (ground (arith, e)) o) h.0,
        All-keep (OwnedRun m) (λ r. Reaches (at (λ s. s.run == r) m.store) m' ⊎ Late m r)
            (λ r. not (any (at (λ s. s.run == r) m.store) gone)) m.runs (λ r e o. run r e o) h.1,
      )
  where
    run :
        (r : ℕ)
        → not (any (at (λ s. s.run == r) m.store) gone) ≡ true
        → OwnedRun m r
        → Reaches (at (λ s. s.run == r) m.store) m' ⊎ Late m r
    run r e (inl o) = inl (keeps (at (λ s. s.run == r) m.store) (ground (arith, e)) o)
    run r e (inr l) = inr l

pub reap-NoLeak : (now : ℕ) (m : Manager) → NoLeak m → NoLeak (reap now m)
unfolding reap
reap-NoLeak now m h =
    release-NoLeak (keep (at (idle now) m.store) (values m.sessions)) m
      (record m { sessions = sweep (at (idle now) m.store) m.sessions }) refl refl refl refl
      (λ q free o. kept q free o) h
  where
    kept :
        (q : ℕ → Bool)
        → any q (keep (at (idle now) m.store) (values m.sessions)) ≡ false
        → Reaches q m
        → Reaches q (record m { sessions = sweep (at (idle now) m.store) m.sessions })
    kept q free o = elim (Bool-cases (any q (values m.sessions))) [
      | inl e ↦ rw (any-sweep q (at (idle now) m.store) m.sessions free e) refl
      | inr e ↦ ground (arith, o)
    ]

pub close-NoLeak : (m : Manager) → NoLeak m → NoLeak (close m)
unfolding close
close-NoLeak m h =
    release-NoLeak (values m.sessions) m (record m { sessions = [] }) refl refl refl refl
      (λ q free o. unfold any in ground (arith, free, o)) h
