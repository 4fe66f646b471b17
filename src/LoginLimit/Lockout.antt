-- ===== src/LoginLimit/Lockout.antt =====
-- internal/server/loginlimit.go: what a run of failed logins does, to one record and to the limiter.
use file_fin.Prelude.{
  ℕ, ◌+◌, ◌-◌, ◌≤◌, ◌<◌, ◌≡◌, refl, false, Bool-cases, inl, inr, Option, none, some, List, [], ◌∷◌,
  length, map, All, Str, str_eq_self, lookup, Distinct, lookup-insert, insert-Distinct,
  lookup-sweep, sweep-Distinct, ltb, arith,
}
use file_fin.LoginLimit.{
  LoginAttempts, LoginLimiter, lock_remaining, allowed, allowed_records, bump_attempt,
  attempt_stale, record_fail, prune, fail, login_account_window, login_account_fails,
  login_account_lock, login_limiter_max,
}

-- One record after failures at the given times.
unfoldable pub bump_all : Option LoginAttempts → ℕ → ℕ → ℕ → List ℕ → Option LoginAttempts
bump_all a window limit lock [] = a
bump_all a window limit lock (t ∷ ts) =
    bump_all (some (bump_attempt a t window limit lock)) window limit lock ts

abbrev pub last_of : ℕ → List ℕ → ℕ
last_of t [] = t
last_of t (u ∷ us) = last_of u us

module _ (window limit lock : ℕ) where
  bump_all-counts :
      (a : LoginAttempts) (t : ℕ) (ts : List ℕ)
      → All (λ u. u - a.window_start ≤ window) (t ∷ ts)
      → a.fails + length (t ∷ ts) ≡ limit
      → bump_all (some a) window limit lock (t ∷ ts)
        ≡ some
            (record { fails = 0; window_start = last_of t ts; locked_until = last_of t ts + lock })
  unfolding bump_all bump_attempt
  bump_all-counts a t [] h e = ground arith
  bump_all-counts a t (u ∷ us) h e =
      let b : LoginAttempts = record a { fails = a.fails + 1 } in
      let counted : bump_attempt (some a) t window limit lock ≡ b = ground arith in
      rw counted (bump_all-counts b u us h.1 (omega arith))

  -- A run of failures that reaches the limit inside the window locks the record from the last one.
  bump_all-locks :
      (t : ℕ) (ts : List ℕ)
      → All (λ u. u - t ≤ window) ts
      → length (t ∷ ts) ≡ limit
      → bump_all none window limit lock (t ∷ ts)
        ≡ some
            (record { fails = 0; window_start = last_of t ts; locked_until = last_of t ts + lock })
  unfolding bump_all bump_attempt
  bump_all-locks t [] h e = ground arith
  bump_all-locks t (u ∷ us) h e =
      let b : LoginAttempts = record { fails = 1; window_start = t; locked_until = 0 } in
      let counted : bump_attempt none t window limit lock ≡ b = ground arith in
      rw counted (bump_all-counts b u us h (omega arith))

  bump_all-few :
      (a : LoginAttempts) (ts : List ℕ) (now : ℕ)
      → a.locked_until ≡ 0
      → a.fails + length ts < limit
      → lock_remaining (bump_all (some a) window limit lock ts) now ≡ 0
  unfolding bump_all lock_remaining
  bump_all-few a [] now z e = ground arith
  bump_all-few a (t ∷ ts) now z e =
      let b = bump_attempt (some a) t window limit lock in
      let fresh : (b.locked_until ≡ 0) × (b.fails ≤ a.fails + 1) =
        unfold bump_attempt in ground arith in
      bump_all-few b ts now fresh.0 (omega arith)

-- Fewer failures than the limit, at whatever times, never lock a record that was not there before.
pub lock_remaining-few :
    (window limit lock : ℕ) (ts : List ℕ) (now : ℕ)
    → length ts < limit
    → lock_remaining (bump_all none window limit lock ts) now ≡ 0
unfolding bump_all
lock_remaining-few window limit lock [] now h = unfold lock_remaining in refl
lock_remaining-few window limit lock (t ∷ ts) now h =
    let b = bump_attempt none t window limit lock in
    let fresh : (b.locked_until ≡ 0) × (b.fails ≤ 1) = unfold bump_attempt in ground arith in
    bump_all-few window limit lock b ts now fresh.0 (omega arith)

not-stale :
    (a : Option LoginAttempts) (now window limit lock : ℕ)
    → attempt_stale (some (bump_attempt a now window limit lock)) now window ≡ false
unfolding attempt_stale bump_attempt
not-stale a now window limit lock = ground arith

-- Even where `fail` prunes, the account's own record is kept.
lookup-fail :
    (l : LoginLimiter) (account ip : Str) (now : ℕ)
    → Distinct l.by_acct
    → Distinct (fail l account ip now).by_acct
      × (lookup account (fail l account ip now).by_acct
          ≡ some (
              bump_attempt
                (lookup account l.by_acct)
                now
                login_account_window
                login_account_fails
                login_account_lock))
unfolding fail record_fail prune
lookup-fail l account ip now d =
    let a =
      bump_attempt (lookup account l.by_acct) now login_account_window login_account_fails
        login_account_lock in
    let l' = record_fail l account ip now in
    let d' : Distinct l'.by_acct = insert-Distinct account a l.by_acct d in
    let found : lookup account l'.by_acct ≡ some a =
      rw (lookup-insert account account a l.by_acct, str_eq_self account) refl in
    elim (Bool-cases (ltb login_limiter_max (length l'.by_acct + length l'.by_ip))) [
      | inl full ↦ rw full (
        sweep-Distinct _ l'.by_acct d',
        rw
            (
              lookup-sweep (λ x. attempt_stale (some x) now login_account_window) account l'.by_acct
                  d',
              found,
              not-stale (lookup account l.by_acct) now login_account_window login_account_fails
                  login_account_lock,
            )
            refl,
      )
      | inr room ↦ rw room (d', found)
    ]

-- Failures for one account, each from some address at some time.
unfoldable pub fail_all : LoginLimiter → Str → List (Str × ℕ) → LoginLimiter
fail_all l account [] = l
fail_all l account ((ip, now) ∷ rest) = fail_all (fail l account ip now) account rest

abbrev pub times : List (Str × ℕ) → List ℕ
times = map (λ e. e.1)

length-times : (tries : List (Str × ℕ)) → length (times tries) ≡ length tries
length-times [] = refl
length-times (e ∷ tries) = omega (arith, length-times tries)

lookup-fail_all :
    (l : LoginLimiter) (account : Str) (tries : List (Str × ℕ))
    → Distinct l.by_acct
    → lookup account (fail_all l account tries).by_acct
      ≡ bump_all
          (lookup account l.by_acct)
          login_account_window
          login_account_fails
          login_account_lock
          (times tries)
unfolding fail_all bump_all
lookup-fail_all l account [] d = refl
lookup-fail_all l account ((ip, now) ∷ rest) d =
    let (d', found) = lookup-fail l account ip now d in
    rw (lookup-fail_all (fail l account ip now) account rest d', found) refl

-- Five failed logins for one account, whatever the addresses they come from, at most fifteen
-- minutes after the first of them, lock the account until fifteen minutes after the last: no
-- address may log in to it before then. Nothing is known of the limiter but that it has no record
-- of the account and, as a Go map, holds no key twice.
pub allowed-fail_all :
    (l : LoginLimiter) (account : Str) (ip : Str) (now : ℕ) (rest : List (Str × ℕ))
    → Distinct l.by_acct
    → lookup account l.by_acct ≡ none
    → length rest ≡ 4
    → All (λ u. u - now ≤ login_account_window) (times rest)
    → (source : Str) (t : ℕ) → t < last_of now (times rest) + login_account_lock
    → allowed (fail_all l account ((ip, now) ∷ rest)) account source t
      ≡ (false, last_of now (times rest) + login_account_lock - t)
unfolding allowed allowed_records lock_remaining
allowed-fail_all l account ip now rest d absent n h source t before =
    let last = last_of now (times rest) in
    let locked : lookup account (fail_all l account ((ip, now) ∷ rest)).by_acct
        ≡ some
            (record { fails = 0; window_start = last; locked_until = last + login_account_lock }) =
      rw (lookup-fail_all l account ((ip, now) ∷ rest) d, absent)
        (bump_all-locks login_account_window login_account_fails login_account_lock now (times rest)
          h (omega (arith, length-times rest))) in
    rw locked (ground arith)
