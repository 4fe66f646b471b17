-- ===== src/Accounts/Throttled.antt =====
-- internal/server/auth.go with internal/server/loginlimit.go: what a login can lead to.
use file_fin.Prelude.{
  ℕ, ◌+◌, ◌-◌, ◌/◌, ◌≤◌, ◌<◌, ◌≡◌, refl, ap, ◌∙◌, Bool, true, false, Option, none, some, List, [],
  ◌∷◌, length, map, All, Bool-cases, inl, inr, Str, lookup, insert, Distinct, arith,
}
use file_fin.LoginLimit.{allowed, fail, login_account_window, login_account_lock}
use file_fin.LoginLimit.Lockout.{fail_all, times, last_of, allowed-fail_all}
use file_fin.Accounts.{
  User, Server, logged_in, unauthorized, too_many_requests, find_user, normalize_username,
  create_session,
}
use file_fin.Accounts.Login.{
  compared_hash, known_password, check_password, begin_login, finish_login, handle_login,
  stamp_login,
}

module _ (matches : Str → Str → Bool) (dummy_hash : Str) (unix : ℕ) (session : Option Str) where
  login_open :
      (now : ℕ) (s : Server) (ip username password : Str)
      → (allowed s.logins (normalize_username username) ip now).0 ≡ true
      → handle_login matches dummy_hash now unix session s ip (some (username, password))
        ≡ finish_login now unix session s
            (normalize_username username)
            ip
            (check_password matches dummy_hash s.users (normalize_username username) password)
  unfolding handle_login begin_login
  login_open now s ip username password e = rw e refl

  login_shut :
      (now : ℕ) (s : Server) (ip username password : Str) (wait : ℕ)
      → allowed s.logins (normalize_username username) ip now ≡ (false, wait)
      → handle_login matches dummy_hash now unix session s ip (some (username, password))
        ≡ (s, too_many_requests (wait / 1000000000 + 1))
  unfolding handle_login begin_login
  login_shut now s ip username password wait e = rw e refl

  finish_login-unauthorized :
      (now : ℕ) (s : Server) (norm ip : Str) (known : Option Str) (session' : Option Str)
      → (finish_login now unix session' s norm ip known).1 ≡ unauthorized
      → (finish_login now unix session' s norm ip known).0
        ≡ record s { logins = fail s.logins norm ip now }
  unfolding finish_login
  finish_login-unauthorized now s norm ip none session' h = refl
  finish_login-unauthorized now s norm ip (some name) none h = cc
  finish_login-unauthorized now s norm ip (some name) (some id) h = cc

  -- A login that is answered 401 counts a failure for the account and the address, and changes
  -- nothing else.
  handle_login-unauthorized :
      (now : ℕ) (s : Server) (ip username password : Str)
      → (handle_login matches dummy_hash now unix session s ip (some (username, password))).1
        ≡ unauthorized
      → (handle_login matches dummy_hash now unix session s ip (some (username, password))).0
        ≡ record s { logins = fail s.logins (normalize_username username) ip now }
  handle_login-unauthorized now s ip username password h =
      let norm = normalize_username username in
      let gate = allowed s.logins norm ip now in
      elim (Bool-cases gate.0) [
        | inl e ↦
            let same = login_open now s ip username password e in
            let known = check_password matches dummy_hash s.users norm password in
            let h' : (finish_login now unix session s norm ip known).1 ≡ unauthorized =
              rw same at h in
            rw same (finish_login-unauthorized now s norm ip known session h')
        | inr e ↦
            let whole : gate ≡ (false, gate.1) = cc in
            let same = login_shut now s ip username password gate.1 whole in
            let h' : too_many_requests (gate.1 / 1000000000 + 1) ≡ unauthorized = rw same at h in cc
      ]

  -- The state after logins for one account, each from an address at a time with a password.
  unfoldable pub login_all : Server → Str → List (Str × ℕ × Str) → Server
  login_all s username [] = s
  login_all s username ((ip, now, password) ∷ tries) =
      login_all
        (handle_login matches dummy_hash now unix session s ip (some (username, password))).0
        username tries

  abbrev pub Refused : Server → Str → List (Str × ℕ × Str) → Type 0
  Refused s username [] = Unit
  Refused s username ((ip, now, password) ∷ tries) =
      ((handle_login matches dummy_hash now unix session s ip (some (username, password))).1
        ≡ unauthorized)
      × Refused
          (handle_login matches dummy_hash now unix session s ip (some (username, password))).0
          username tries

  abbrev pub places : List (Str × ℕ × Str) → List (Str × ℕ)
  places = map (λ t. (t.0, t.1))

  login_all-fail_all :
      (s : Server) (username : Str) (tries : List (Str × ℕ × Str))
      → Refused s username tries
      → (login_all s username tries).logins
        ≡ fail_all s.logins (normalize_username username) (places tries)
  unfolding login_all fail_all
  login_all-fail_all s username [] h = refl
  login_all-fail_all s username ((ip, now, password) ∷ tries) h =
      let same = handle_login-unauthorized now s ip username password h.0 in
      let rest =
        login_all-fail_all
          (handle_login matches dummy_hash now unix session s ip (some (username, password))).0
          username tries h.1 in
      rest
      ∙ ap (λ (t : Server). fail_all t.logins (normalize_username username) (places tries)) same

  -- Five logins for one account that were all answered 401, at most fifteen minutes after the first
  -- of them, from whatever addresses and with whatever passwords, lock the account: until fifteen
  -- minutes after the last of them every login for it is answered 429 and changes nothing, also one
  -- with the right password. Before the first of the five the throttle has no record of the account.
  pub handle_login-locked :
      (s : Server) (username ip password : Str) (now : ℕ) (rest : List (Str × ℕ × Str))
      (source guess : Str) (t : ℕ)
      → Distinct s.logins.by_acct
      → lookup (normalize_username username) s.logins.by_acct ≡ none
      → length (places rest) ≡ 4
      → All (λ u. u - now ≤ login_account_window) (times (places rest))
      → Refused s username ((ip, now, password) ∷ rest)
      → t < last_of now (times (places rest)) + login_account_lock
      → let s' = login_all s username ((ip, now, password) ∷ rest) in
        handle_login matches dummy_hash t unix session s' source (some (username, guess)) ≡ (
          s',
          too_many_requests
              ((last_of now (times (places rest)) + login_account_lock - t) / 1000000000 + 1),
        )
  handle_login-locked s username ip password now rest source guess t d absent n window refused
        before =
      let norm = normalize_username username in
      let tries = (ip, now, password) ∷ rest in
      let s' = login_all s username tries in
      let wait = last_of now (times (places rest)) + login_account_lock - t in
      let shut : allowed s'.logins norm source t ≡ (false, wait) =
        rw (login_all-fail_all s username tries refused)
          (allowed-fail_all s.logins norm ip now (places rest) d absent n window source t before) in
      login_shut t s' source username guess wait shut

  finish_login-logged_in :
      (now : ℕ) (s : Server) (norm ip id : Str) (known session' : Option Str)
      → (finish_login now unix session' s norm ip known).1 ≡ logged_in id
      → (name : Str) × (known ≡ some name)
        × ((finish_login now unix session' s norm ip known).0.sessions ≡ insert id name s.sessions)
  unfolding finish_login create_session stamp_login
  finish_login-logged_in now s norm ip id none session' h = cc
  finish_login-logged_in now s norm ip id (some name) none h = cc
  finish_login-logged_in now s norm ip id (some name) (some fresh) h =
      let same : fresh ≡ id = ground arith in (name, refl, rw same refl)

  known_password-some :
      (password name : Str) (found : Option (User × Str))
      → known_password matches dummy_hash password found ≡ some name
      → (u : User) × (found ≡ some (u, name))
        × (u.blocked ≡ false)
        × (matches (compared_hash dummy_hash u) password ≡ true)
  known_password-some password name none h = cc
  known_password-some password name (some (u, k)) h =
      elim (Bool-cases (matches (compared_hash dummy_hash u) password)) [
        | inl e ↦ elim (Bool-cases u.blocked) [
          | inl b ↦ absurd (ground arith)
          | inr b ↦ let same : k ≡ name = ground arith in (u, rw same refl, b, e)
        ]
        | inr e ↦ absurd (ground arith)
      ]

  -- A login that succeeds was let through by the throttle, found an account that is not blocked and
  -- whose stored hash, or the placeholder's where it has none, matches the password; and the session
  -- that it opens is that account's, beside those that were there.
  pub handle_login-logged_in :
      (now : ℕ) (s : Server) (ip username password id : Str)
      → (handle_login matches dummy_hash now unix session s ip (some (username, password))).1
        ≡ logged_in id
      → (name : Str) × (u : User) × ((allowed s.logins (normalize_username username) ip now).0
          ≡ true)
        × (find_user s.users (normalize_username username) ≡ some (u, name))
        × (u.blocked ≡ false)
        × (matches (compared_hash dummy_hash u) password ≡ true)
        × ((handle_login matches dummy_hash now unix session s ip
              (some (username, password))).0.sessions
            ≡ insert id name s.sessions)
  handle_login-logged_in now s ip username password id h =
      let norm = normalize_username username in
      let gate = allowed s.logins norm ip now in
      elim (Bool-cases gate.0) [
        | inl e ↦
            let same = login_open now s ip username password e in
            let known = check_password matches dummy_hash s.users norm password in
            let h' : (finish_login now unix session s norm ip known).1 ≡ logged_in id =
              rw same at h in
            let (name, is_known, opened) =
              finish_login-logged_in now s norm ip id known session h' in
            let checked : known_password matches dummy_hash password (find_user s.users norm)
                ≡ some name =
              unfold check_password in is_known in
            let (u, found, free, fits) =
              known_password-some password name (find_user s.users norm) checked in
            (name, u, e, found, free, fits, rw same opened)
        | inr e ↦
            let whole : gate ≡ (false, gate.1) = cc in
            let same = login_shut now s ip username password gate.1 whole in
            let h' : too_many_requests (gate.1 / 1000000000 + 1) ≡ logged_in id = rw same at h in cc
      ]
