-- ===== src/Accounts.antt =====
-- internal/server/auth.go, users.go and tokens.go with the types of internal/config/config.go: the
-- accounts, their sessions and tokens, and the handlers that change them. Each critical section of
-- a mutex is one step, so a handler with several is several functions. bcrypt and SHA-256 are
-- parameters, and so are the random numbers and whether the configuration could be saved. Names are
-- lower-cased over ASCII. The rows that mirror the accounts in the database are not modelled.
use file_fin.Prelude.{
  ℕ, suc, ◌+◌, ◌/◌, Bool, true, false, not, ◌&&◌, ◌||◌, Option, none, some, List, [], ◌∷◌, ◌++◌,
  any, if◌then◌else◌, ◌==◌, Str, bytes, str_eq, Map, lookup, insert, delete, sweep,
}
use file_fin.Strings.{trim_space}
use file_fin.Strings.Paths.{to_lower, cut_prefix}
use file_fin.LoginLimit.{LoginLimiter, allowed, fail, success}
pub mod Login
pub mod Users
pub mod Tokens
pub mod Throttled
pub mod Admins
pub mod Blocking
pub mod Bearer

pub record PersonalToken : Type 0 where
  pub id : Str
  pub label : Str
  pub hash : Str
  pub created_at : ℕ
  pub last_used_at : ℕ

pub record User : Type 0 where
  pub user_id : ℕ
  pub password_hash : Str
  pub alias : Str
  pub admin : Bool
  pub blocked : Bool
  pub created_at : ℕ
  pub last_login_at : ℕ
  pub tokens : List PersonalToken

pub record Server : Type 0 where
  pub users : Map User
  pub sessions : Map Str
  pub logins : LoginLimiter

pub data Reply : Type 0 where
  done : Reply
  logged_in : Str → Reply
  bad_request : Reply
  unauthorized : Reply
  forbidden : Reply
  not_found : Reply
  too_many_requests : ℕ → Reply
  internal_error : Reply
  conflict : Reply
  unavailable : Reply

-- `sessionStore`: create, user, delete and deleteUser
unfoldable pub create_session : Str → Str → Map Str → Map Str
create_session id user m = insert id user m

unfoldable pub session_user : Map Str → Str → Option Str
session_user m id = lookup id m

unfoldable pub delete_session : Str → Map Str → Map Str
delete_session id m = delete id m

unfoldable pub delete_user_sessions : Str → Map Str → Map Str
delete_user_sessions user m = sweep (λ u. str_eq u user) m

unfoldable pub normalize_username : Str → Str
normalize_username s = to_lower (trim_space s)

-- The linear scan of `findUser`.
unfoldable pub scan_users : Str → Map User → Option (User × Str)
scan_users norm [] = none
scan_users norm ((k, u) ∷ users) =
    if str_eq (normalize_username k) norm then some (u, k) else scan_users norm users

abbrev pub direct_or : Option User → Str → Option (User × Str) → Option (User × Str)
direct_or none norm scanned = scanned
direct_or (some u) norm scanned = some (u, norm)

unfoldable pub find_user : Map User → Str → Option (User × Str)
unfolding scan_users
find_user users name =
    let norm = normalize_username name in direct_or (lookup norm users) norm (scan_users norm users)

abbrev pub keep_token : PersonalToken → Option (List PersonalToken) → Option (List PersonalToken)
keep_token t none = none
keep_token t (some ts) = some (t ∷ ts)

-- One account of the scan for a bearer token: its tokens with the first that has the hash stamped.
unfoldable pub stamp_token : Str → ℕ → List PersonalToken → Option (List PersonalToken)
stamp_token hash now [] = none
stamp_token hash now (t ∷ ts) =
    if str_eq t.hash hash
    then some (record t { last_used_at = now } ∷ ts)
    else keep_token t (stamp_token hash now ts)

abbrev pub stamped : Str → User → Option (List PersonalToken) → Option (Str × User)
stamped name u none = none
stamped name u (some ts) = some (name, record u { tokens = ts })

abbrev pub first_of : Option (Str × User) → Option (Str × User) → Option (Str × User)
first_of none other = other
first_of (some e) other = some e

unfoldable pub scan_tokens : Str → ℕ → Map User → Option (Str × User)
unfolding stamp_token
scan_tokens hash now [] = none
scan_tokens hash now ((name, u) ∷ users) =
    first_of (if u.blocked then none else stamped name u (stamp_token hash now u.tokens))
      (scan_tokens hash now users)

abbrev pub store_user : Server → Option (Str × User) → Server × Option Str
store_user s none = (s, none)
store_user s (some (name, u)) = (record s { users = insert name u s.users }, some name)

abbrev pub bearer_secret : (Str → Str) → ℕ → Server → Option Str → Server × Option Str
bearer_secret hash_token now s none = (s, none)
bearer_secret hash_token now s (some []) = (s, none)
bearer_secret hash_token now s (some (c ∷ secret)) =
    store_user s (scan_tokens (hash_token (c ∷ secret)) now s.users)

-- Over the value of the Authorization header.
unfoldable pub auth_user_from_bearer : (Str → Str) → ℕ → Server → Str → Server × Option Str
unfolding cut_prefix scan_tokens
auth_user_from_bearer hash_token now s header =
    bearer_secret hash_token now s (cut_prefix header (bytes "Bearer "))

abbrev pub cookie_user : Map Str → Option Str → Option Str
cookie_user sessions none = none
cookie_user sessions (some value) = session_user sessions value

abbrev pub or_bearer : Server → Option Str → Server × Option Str → Server × Option Str
or_bearer s none bearer = bearer
or_bearer s (some user) bearer = (s, some user)

-- The user that a request is handled for, none where it is answered 401.
unfoldable pub auth : (Str → Str) → ℕ → Server → Option Str → Str → Server × Option Str
unfolding session_user auth_user_from_bearer
auth hash_token now s cookie header =
    or_bearer s (cookie_user s.sessions cookie) (auth_user_from_bearer hash_token now s header)

abbrev is_admin : Option User → Bool
is_admin none = false
is_admin (some u) = u.admin

abbrev pub admin_reply : Server → Option Str → Reply
admin_reply s none = unauthorized
admin_reply s (some user) = if is_admin (lookup user s.users) then done else forbidden

-- `done` stands for the call of the guarded handler.
unfoldable pub admin_guard : (Str → Str) → ℕ → Server → Option Str → Str → Server × Reply
unfolding auth
admin_guard hash_token now s cookie header =
    let who = auth hash_token now s cookie header in (who.0, admin_reply who.0 who.1)

unfoldable pub handle_logout : Server → Option Str → Server
unfolding delete_session
handle_logout s none = s
handle_logout s (some value) = record s { sessions = delete_session value s.sessions }
