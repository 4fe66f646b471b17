-- ===== src/Tests/Login.antt =====
-- Tests of the login throttle (internal/server/loginlimit.go).
use file_fin.Prelude.{
  ℕ, ◌+◌, ◌-◌, ◌*◌, ◌≡◌, refl, false, true, none, some, List, [], ◌∷◌, Str, str_eq, bytes, lookup,
  insert, delete, arith,
}
use file_fin.LoginLimit.{
  minute, new_login_limiter, lock_remaining, allowed, allowed_records, bump_attempt, record_fail,
  fail, success, login_account_lock,
}
use file_fin.LoginLimit.Source.{
  Net, Request, is_loopback_host, client_ip, cookie_secure, client_ip-direct,
}
use file_fin.LoginLimit.Refines.{
  Call, check, failed, succeeded, answers, no_records, unpruned_answers, answers-unpruned,
}
use file_fin.LoginLimit.Lockout.{bump_all, fail_all, allowed-fail_all, lock_remaining-few}

abbrev eve : Str
eve = bytes "eve"

abbrev home : Str
home = bytes "10.0.0.1"

abbrev away : Str
away = bytes "10.0.0.2"

-- Five failures in two minutes, a check, a success of another account, and a check after the lock.
abbrev attack : List Call
attack =
    failed eve home (100 * minute)
    ∷ failed eve away (100 * minute)
    ∷ failed eve home (101 * minute)
    ∷ failed eve home (102 * minute)
    ∷ failed eve away (102 * minute)
    ∷ check eve home (110 * minute)
    ∷ succeeded home
    ∷ check eve home (117 * minute)
    ∷ []

attack-answers : answers new_login_limiter attack ≡ (false, 7 * minute) ∷ (true, 0) ∷ []
unfolding answers new_login_limiter allowed allowed_records fail record_fail success bump_attempt
    lock_remaining lookup insert delete str_eq
attack-answers = refl

answers-unpruned_example : answers new_login_limiter attack ≡ unpruned_answers no_records attack
answers-unpruned_example = answers-unpruned attack (omega arith)

abbrev more_tries : List (Str × ℕ)
more_tries = (away, 1 * minute) ∷ (home, 2 * minute) ∷ (home, 2 * minute) ∷ (away, 3 * minute) ∷ []

allowed-fail_all_example :
    allowed (fail_all new_login_limiter eve ((home, minute) ∷ more_tries)) eve away (17 * minute)
    ≡ (false, 3 * minute + login_account_lock - 17 * minute)
unfolding new_login_limiter lookup
allowed-fail_all_example =
    allowed-fail_all new_login_limiter eve home minute more_tries tt refl refl (omega arith) away
      (17 * minute) (omega arith)

lock_remaining-few_example :
    lock_remaining (bump_all none (15 * minute) 5 (15 * minute) (1 ∷ 2 ∷ 3 ∷ 4 ∷ [])) 5 ≡ 0
lock_remaining-few_example =
    lock_remaining-few (15 * minute) 5 (15 * minute) (1 ∷ 2 ∷ 3 ∷ 4 ∷ []) 5 (omega arith)

abbrev no_net : Net
no_net = record { split_host = λ addr. none; loopback = λ host. some false }

abbrev direct : Request
direct = record {
  remote_addr = bytes "10.0.0.7";
  tls = false;
  forwarded_for = [];
  forwarded_proto = [];
}

client_ip-direct_example :
    (client_ip no_net
        (record direct { forwarded_for = bytes "1.2.3.4"; forwarded_proto = bytes "https" })
      ≡ client_ip no_net direct)
    × (cookie_secure no_net
          (record direct { forwarded_for = bytes "1.2.3.4"; forwarded_proto = bytes "https" })
        ≡ cookie_secure no_net direct)
unfolding is_loopback_host
client_ip-direct_example = client_ip-direct no_net direct (bytes "1.2.3.4") (bytes "https") refl
