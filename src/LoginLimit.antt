-- ===== src/LoginLimit.antt =====
-- internal/server/loginlimit.go: the throttle of /api/login by account and by source address.
-- A `time.Time` is its number of nanoseconds since Go's zero time, so `IsZero` is a test for 0.
-- Subtraction stops at 0 here: a difference of times is only held against a positive window, and
-- `now.Sub` of a later time is negative, hence below it too. The mutex makes each method one
-- step; the state is passed on explicitly.
use file_fin.Prelude.{
  ℕ, ◌+◌, ◌-◌, ◌*◌, Bool, true, false, not, ◌&&◌, ◌||◌, [], Option, none, some, ltb, leb, ◌==◌,
  if◌then◌else◌, length, Str, Map, lookup, insert, delete, sweep,
}
pub mod Refines
pub mod Lockout
pub mod Source

abbrev pub minute : ℕ
minute = 60000000000

abbrev pub login_account_fails : ℕ
login_account_fails = 5

abbrev pub login_account_window : ℕ
login_account_window = 15 * minute

abbrev pub login_account_lock : ℕ
login_account_lock = 15 * minute

abbrev pub login_ip_fails : ℕ
login_ip_fails = 20

abbrev pub login_ip_window : ℕ
login_ip_window = 5 * minute

abbrev pub login_ip_lock : ℕ
login_ip_lock = 15 * minute

abbrev pub login_limiter_max : ℕ
login_limiter_max = 4096

pub record LoginAttempts : Type 0 where
  pub fails : ℕ
  pub window_start : ℕ
  pub locked_until : ℕ

pub record LoginLimiter : Type 0 where
  pub by_acct : Map LoginAttempts
  pub by_ip : Map LoginAttempts

unfoldable pub new_login_limiter : LoginLimiter
new_login_limiter = record { by_acct = []; by_ip = [] }

-- A nil record, an unset lock and a lock that has passed all answer 0.
unfoldable pub lock_remaining : Option LoginAttempts → ℕ → ℕ
lock_remaining none now = 0
lock_remaining (some a) now =
    if a.locked_until == 0 || not (ltb now a.locked_until) then 0 else a.locked_until - now

-- The two tests of `allowed`, on the records that the two maps hold.
unfoldable pub allowed_records : Option LoginAttempts → Option LoginAttempts → ℕ → Bool × ℕ
unfolding lock_remaining
allowed_records acct ip now =
    if ltb 0 (lock_remaining acct now)
    then (false, lock_remaining acct now)
    else if ltb 0 (lock_remaining ip now)
    then (false, lock_remaining ip now)
    else (true, 0)

unfoldable pub allowed : LoginLimiter → Str → Str → ℕ → Bool × ℕ
allowed l account ip now = allowed_records (lookup account l.by_acct) (lookup ip l.by_ip) now

-- The record that `bumpAttempt` counts in: a nil or expired one is replaced by a new one.
unfoldable pub current_window : Option LoginAttempts → ℕ → ℕ → LoginAttempts
current_window none now window = record { fails = 0; window_start = now; locked_until = 0 }
current_window (some a) now window =
    if ltb window (now - a.window_start)
    then record { fails = 0; window_start = now; locked_until = 0 }
    else a

count_fail : LoginAttempts → ℕ → ℕ → ℕ → LoginAttempts
count_fail a now max lock =
    if leb max (a.fails + 1)
    then record { fails = 0; window_start = now; locked_until = now + lock }
    else record a { fails = a.fails + 1 }

unfoldable pub bump_attempt : Option LoginAttempts → ℕ → ℕ → ℕ → ℕ → LoginAttempts
unfolding count_fail current_window
bump_attempt a now window max lock = count_fail (current_window a now window) now max lock

unfoldable pub attempt_stale : Option LoginAttempts → ℕ → ℕ → Bool
attempt_stale none now window = true
attempt_stale (some a) now window =
    if not (a.locked_until == 0) && ltb now a.locked_until
    then false
    else ltb window (now - a.window_start)

unfoldable pub prune : LoginLimiter → ℕ → LoginLimiter
prune l now = record {
  by_acct = sweep (λ a. attempt_stale (some a) now login_account_window) l.by_acct;
  by_ip = sweep (λ a. attempt_stale (some a) now login_ip_window) l.by_ip;
}

-- The two map writes of `fail`, before the bound on the maps is looked at.
unfoldable pub record_fail : LoginLimiter → Str → Str → ℕ → LoginLimiter
record_fail l account ip now = record {
  by_acct =
      insert account
        (bump_attempt (lookup account l.by_acct) now login_account_window login_account_fails
          login_account_lock)
        l.by_acct;
  by_ip =
      insert ip (bump_attempt (lookup ip l.by_ip) now login_ip_window login_ip_fails login_ip_lock)
        l.by_ip;
}

unfoldable pub fail : LoginLimiter → Str → Str → ℕ → LoginLimiter
unfolding record_fail prune
fail l account ip now =
    let l' = record_fail l account ip now in
    if ltb login_limiter_max (length l'.by_acct + length l'.by_ip) then prune l' now else l'

unfoldable pub success : LoginLimiter → Str → LoginLimiter
success l account = record l { by_acct = delete account l.by_acct }
