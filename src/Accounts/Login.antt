-- ===== src/Accounts/Login.antt =====
-- internal/server/auth.go: the login, in the two parts that the password check separates. `matches`
-- is bcrypt's comparison of a hash with a password.
use file_fin.Prelude.{
  ℕ, ◌+◌, ◌/◌, Bool, true, false, not, ◌&&◌, Option, none, some, [], if◌then◌else◌, Str, str_eq,
  Map, lookup, insert,
}
use file_fin.LoginLimit.{allowed, fail, success}
use file_fin.Accounts.{
  User, Server, Reply, bad_request, too_many_requests, unauthorized, internal_error, logged_in,
  find_user, normalize_username, create_session,
}

abbrev pub compared_hash : Str → User → Str
compared_hash dummy_hash u =
    if not u.blocked && not (str_eq u.password_hash []) then u.password_hash else dummy_hash

-- The account found, if the password is its own and it is not blocked.
abbrev pub known_password : (Str → Str → Bool) → Str → Str → Option (User × Str) → Option Str
known_password matches dummy_hash password none = none
known_password matches dummy_hash password (some (u, name)) =
    if matches (compared_hash dummy_hash u) password && not u.blocked then some name else none

unfoldable pub check_password : (Str → Str → Bool) → Str → Map User → Str → Str → Option Str
check_password matches dummy_hash users norm password =
    known_password matches dummy_hash password (find_user users norm)

abbrev stamp_found : ℕ → Option User → Str → Map User → Map User
stamp_found unix none name users = users
stamp_found unix (some u) name users = insert name (record u { last_login_at = unix }) users

unfoldable pub stamp_login : ℕ → Str → Server → Server
stamp_login unix name s = record s { users = stamp_found unix (lookup name s.users) name s.users }

-- What follows the comparison. `session` is the random session id, none where there is none.
unfoldable pub finish_login : ℕ → ℕ → Option Str → Server → Str → Str → Option Str → Server × Reply
unfolding create_session stamp_login
finish_login now unix session s norm ip none =
    (record s { logins = fail s.logins norm ip now }, unauthorized)
finish_login now unix none s norm ip (some name) =
    (record s { logins = success s.logins norm }, internal_error)
finish_login now unix (some id) s norm ip (some name) = (
  stamp_login unix name
      (record s { logins = success s.logins norm; sessions = create_session id name s.sessions }),
  logged_in id,
)

-- The first part answers before the comparison, or hands over its outcome.
unfoldable pub begin_login :
    (Str → Str → Bool) → Str → ℕ → Server → Str → Str → Str → Bool × Reply × Option Str
unfolding check_password
begin_login matches dummy_hash now s norm ip password =
    let gate = allowed s.logins norm ip now in
    if gate.0
    then (true, unauthorized, check_password matches dummy_hash s.users norm password)
    else (false, too_many_requests (gate.1 / 1000000000 + 1), none)

-- `handleLogin` where no other request comes between; the body that cannot be read is none.
unfoldable pub handle_login :
    (Str → Str → Bool)
    → Str
    → ℕ
    → ℕ
    → Option Str
    → Server
    → Str
    → Option (Str × Str)
    → Server × Reply
unfolding begin_login finish_login
handle_login matches dummy_hash now unix session s ip none = (s, bad_request)
handle_login matches dummy_hash now unix session s ip (some (username, password)) =
    let norm = normalize_username username in
    let first = begin_login matches dummy_hash now s norm ip password in
    if first.0 then finish_login now unix session s norm ip first.2 else (s, first.1)
