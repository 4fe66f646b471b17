-- ===== src/LoginLimit/Refines.antt =====
-- internal/server/loginlimit.go: pruning is invisible. The limiter is compared with an ideal one
-- that keeps every record for ever, over the same calls.
use file_fin.Prelude.{
  ℕ, ◌+◌, ◌≤◌, ◌≡◌, refl, sym, ap, Bool-cases, inl, inr, Bool, true, Option, none, some, List, [],
  ◌∷◌, length, Str, Map, lookup, insert, delete, sweep, Distinct, unless_dropped, lookup-insert,
  lookup-delete, lookup-sweep, sweep-Distinct, insert-Distinct, delete-Distinct, str_eq,
  if◌then◌else◌, ltb, arith,
}
use file_fin.LoginLimit.{
  LoginAttempts, LoginLimiter, new_login_limiter, lock_remaining, allowed, allowed_records,
  bump_attempt, attempt_stale, prune, record_fail, fail, success, login_account_window,
  login_account_fails, login_account_lock, login_ip_window, login_ip_fails, login_ip_lock,
  login_limiter_max,
}

-- A record of the limiter stands for that of the ideal one: they are equal, or it is gone and the
-- other is stale.
data Covers (now window : ℕ) (c a : Option LoginAttempts) : Type 0 where
  same : c ≡ a → Covers now window c a
  gone :
      c ≡ none
      → (x : LoginAttempts) → a ≡ some x
      → attempt_stale (some x) now window ≡ true
      → Covers now window c a

module _ (now window : ℕ) (c a : Option LoginAttempts) where
  Covers-later : (t : ℕ) → Covers now window c a → now ≤ t → Covers t window c a
  unfolding attempt_stale
  Covers-later t (same e) h = same e
  Covers-later t (gone e x f s) h = gone e x f (ground arith)

  lock_remaining-Covers :
      (t : ℕ) → Covers now window c a → now ≤ t → lock_remaining c t ≡ lock_remaining a t
  unfolding attempt_stale lock_remaining
  lock_remaining-Covers t (same e) h = ground arith
  lock_remaining-Covers t (gone e x f s) h = ground arith

  bump_attempt-Covers :
      (t max lock : ℕ)
      → Covers now window c a
      → now ≤ t
      → bump_attempt c t window max lock ≡ bump_attempt a t window max lock
  unfolding attempt_stale bump_attempt
  bump_attempt-Covers t max lock (same e) h = rw e
  bump_attempt-Covers t max lock (gone e x f s) h = ground arith

Covers-dropped :
    (now window : ℕ) (c a : Option LoginAttempts)
    → Covers now window c a
    → Covers now window (unless_dropped (λ x. attempt_stale (some x) now window) c) a
Covers-dropped now window c a (gone e x f s) = gone (rw e) x f s
Covers-dropped now window none a (same e) = same e
Covers-dropped now window (some y) a (same e) =
    elim (Bool-cases (attempt_stale (some y) now window)) [
      | inl stale ↦ rw stale (gone refl y (sym e) stale)
      | inr fresh ↦ rw fresh (same e)
    ]

-- The ideal limiter: a record for every key, none of them ever dropped for space.
pub record Unpruned : Type 0 where
  pub acct : Str → Option LoginAttempts
  pub ip : Str → Option LoginAttempts

abbrev pub no_records : Unpruned
no_records = record { acct = λ k. none; ip = λ k. none }

abbrev put : Str → Option LoginAttempts → (Str → Option LoginAttempts) → Str → Option LoginAttempts
put k v f j = if str_eq k j then v else f j

unfoldable pub unpruned_allowed : Unpruned → Str → Str → ℕ → Bool × ℕ
unpruned_allowed u account ip now = allowed_records (u.acct account) (u.ip ip) now

unfoldable pub unpruned_fail : Unpruned → Str → Str → ℕ → Unpruned
unpruned_fail u account ip now = record {
  acct =
      put account
        (some (
          bump_attempt (u.acct account) now login_account_window login_account_fails
            login_account_lock))
        u.acct;
  ip = put ip (some (bump_attempt (u.ip ip) now login_ip_window login_ip_fails login_ip_lock)) u.ip;
}

unfoldable pub unpruned_success : Unpruned → Str → Unpruned
unpruned_success u account = record { acct = put account none u.acct; ip = u.ip }

-- What the login handler asks of the limiter.
pub data Call : Type 0 where
  check : Str → Str → ℕ → Call
  failed : Str → Str → ℕ → Call
  succeeded : Str → Call

-- The answers of the checks, in order.
unfoldable pub answers : LoginLimiter → List Call → List (Bool × ℕ)
answers l [] = []
answers l (check account ip now ∷ calls) = allowed l account ip now ∷ answers l calls
answers l (failed account ip now ∷ calls) = answers (fail l account ip now) calls
answers l (succeeded account ∷ calls) = answers (success l account) calls

unfoldable pub unpruned_answers : Unpruned → List Call → List (Bool × ℕ)
unpruned_answers u [] = []
unpruned_answers u (check account ip now ∷ calls) =
    unpruned_allowed u account ip now ∷ unpruned_answers u calls
unpruned_answers u (failed account ip now ∷ calls) =
    unpruned_answers (unpruned_fail u account ip now) calls
unpruned_answers u (succeeded account ∷ calls) = unpruned_answers (unpruned_success u account) calls

-- The clock never goes back from one call to the next.
abbrev pub IsAscending : ℕ → List Call → Type 0
IsAscending t [] = Unit
IsAscending t (check account ip now ∷ calls) = (t ≤ now) × IsAscending now calls
IsAscending t (failed account ip now ∷ calls) = (t ≤ now) × IsAscending now calls
IsAscending t (succeeded account ∷ calls) = IsAscending t calls

record MapCovers (now window : ℕ) (m : Map LoginAttempts) (f : Str → Option LoginAttempts)
    : Type 0 where
  keys_once : Distinct m
  covers : (k : Str) → Covers now window (lookup k m) (f k)

module _ (now window : ℕ) (m : Map LoginAttempts) (f : Str → Option LoginAttempts) where
  MapCovers-later : (t : ℕ) → MapCovers now window m f → now ≤ t → MapCovers t window m f
  MapCovers-later t c h = record {
    keys_once = c.keys_once;
    covers = λ k. Covers-later now window (lookup k m) (f k) t (c.covers k) h;
  }

  MapCovers-sweep :
      MapCovers now window m f
      → MapCovers now window (sweep (λ a. attempt_stale (some a) now window) m) f
  MapCovers-sweep c = record {
    keys_once = sweep-Distinct (λ a. attempt_stale (some a) now window) m c.keys_once;
    covers = λ k.
        rw (lookup-sweep (λ a. attempt_stale (some a) now window) k m c.keys_once)
          (Covers-dropped now window (lookup k m) (f k) (c.covers k));
  }

  MapCovers-delete :
      (k : Str) → MapCovers now window m f → MapCovers now window (delete k m) (put k none f)
  MapCovers-delete k c = record {
    keys_once = delete-Distinct k m c.keys_once;
    covers = λ j.
        rw (lookup-delete k j m)
          (elim (Bool-cases (str_eq k j)) [ inl e ↦ rw e (same refl) | inr e ↦ rw e (c.covers j) ]);
  }

  MapCovers-bump :
      (k : Str) (t limit lock : ℕ)
      → MapCovers now window m f
      → now ≤ t
      → MapCovers t window
          (insert k (bump_attempt (lookup k m) t window limit lock) m)
          (put k (some (bump_attempt (f k) t window limit lock)) f)
  MapCovers-bump k t limit lock c h = record {
    keys_once = insert-Distinct k _ m c.keys_once;
    covers = λ j. rw (lookup-insert k j _ m) (elim (Bool-cases (str_eq k j)) [
      | inl e ↦ rw e (
          same (
            ap some
              (bump_attempt-Covers now window (lookup k m) (f k) t limit lock (c.covers k) h)))
      | inr e ↦ rw e (Covers-later now window (lookup j m) (f j) t (c.covers j) h)
    ]);
  }

record Simulates (now : ℕ) (l : LoginLimiter) (u : Unpruned) : Type 0 where
  acct : MapCovers now login_account_window l.by_acct u.acct
  ip : MapCovers now login_ip_window l.by_ip u.ip

module _ (now : ℕ) (l : LoginLimiter) (u : Unpruned) (s : Simulates now l u) where
  Simulates-later : (t : ℕ) → now ≤ t → Simulates t l u
  Simulates-later t h = record {
    acct = MapCovers-later now login_account_window l.by_acct u.acct t s.acct h;
    ip = MapCovers-later now login_ip_window l.by_ip u.ip t s.ip h;
  }

  allowed-Simulates :
      (account ip : Str) (t : ℕ)
      → now ≤ t
      → allowed l account ip t ≡ unpruned_allowed u account ip t
  unfolding allowed unpruned_allowed allowed_records
  allowed-Simulates account ip t h = rw (
    lock_remaining-Covers now login_account_window (lookup account l.by_acct) (u.acct account) t
        (s.acct.covers account) h,
    lock_remaining-Covers now login_ip_window (lookup ip l.by_ip) (u.ip ip) t (s.ip.covers ip) h,
  )

  record_fail-Simulates :
      (account ip : Str) (t : ℕ)
      → now ≤ t
      → Simulates t (record_fail l account ip t) (unpruned_fail u account ip t)
  unfolding record_fail unpruned_fail
  record_fail-Simulates account ip t h = record {
    acct =
        MapCovers-bump now login_account_window l.by_acct u.acct account t login_account_fails
          login_account_lock s.acct h;
    ip = MapCovers-bump now login_ip_window l.by_ip u.ip ip t login_ip_fails login_ip_lock s.ip h;
  }

  prune-Simulates : Simulates now (prune l now) u
  unfolding prune
  prune-Simulates = record {
    acct = MapCovers-sweep now login_account_window l.by_acct u.acct s.acct;
    ip = MapCovers-sweep now login_ip_window l.by_ip u.ip s.ip;
  }

  success-Simulates :
      (account : Str) → Simulates now (success l account) (unpruned_success u account)
  unfolding success unpruned_success
  success-Simulates account = record {
    acct = MapCovers-delete now login_account_window l.by_acct u.acct account s.acct;
    ip = s.ip;
  }

fail-Simulates :
    (now : ℕ) (l : LoginLimiter) (u : Unpruned) (account ip : Str) (t : ℕ)
    → Simulates now l u
    → now ≤ t
    → Simulates t (fail l account ip t) (unpruned_fail u account ip t)
unfolding fail
fail-Simulates now l u account ip t s h =
    let l' = record_fail l account ip t in
    let u' = unpruned_fail u account ip t in
    let s' : Simulates t l' u' = record_fail-Simulates now l u s account ip t h in
    elim (Bool-cases (ltb login_limiter_max (length l'.by_acct + length l'.by_ip))) [
      | inl full ↦ rw full (prune-Simulates t l' u' s')
      | inr room ↦ rw room s'
    ]

answers-Simulates :
    (now : ℕ) (l : LoginLimiter) (u : Unpruned) (calls : List Call)
    → Simulates now l u
    → IsAscending now calls
    → answers l calls ≡ unpruned_answers u calls
unfolding answers unpruned_answers
answers-Simulates now l u [] s asc = refl
answers-Simulates now l u (check account ip t ∷ calls) s asc = rw (
  allowed-Simulates now l u s account ip t asc.0,
  answers-Simulates t l u calls (Simulates-later now l u s t asc.0) asc.1,
)
answers-Simulates now l u (failed account ip t ∷ calls) s asc =
    answers-Simulates t (fail l account ip t) (unpruned_fail u account ip t) calls
      (fail-Simulates now l u account ip t s asc.0) asc.1
answers-Simulates now l u (succeeded account ∷ calls) s asc =
    answers-Simulates now (success l account) (unpruned_success u account) calls
      (success-Simulates now l u s account) asc

-- For every sequence of checks, failures and successes at times that never go back, a new limiter
-- gives the same answers, locks and waiting times included, as the ideal limiter that never drops
-- a record to bound its memory.
pub answers-unpruned :
    (calls : List Call)
    → IsAscending 0 calls
    → answers new_login_limiter calls ≡ unpruned_answers no_records calls
unfolding new_login_limiter lookup
answers-unpruned calls asc =
    answers-Simulates 0 new_login_limiter no_records calls
      (record {
        acct = record { keys_once = tt; covers = λ k. same refl };
        ip = record { keys_once = tt; covers = λ k. same refl };
      })
      asc
