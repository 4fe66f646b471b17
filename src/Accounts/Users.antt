-- ===== src/Accounts/Users.antt =====
-- internal/server/users.go: creating and changing an account. `hash_password` is bcrypt's, none
-- where it fails, and `saved` whether the configuration could be written.
use file_fin.Prelude.{
  ℕ, ◌+◌, Bool, true, false, not, ◌&&◌, ◌||◌, Option, none, some, [], ◌∷◌, any, ltb, ◌==◌,
  if◌then◌else◌, Str, str_eq, Map, insert,
}
use file_fin.Strings.{trim_space, cut_at, byte_length}
use file_fin.Accounts.{
  User, Server, Reply, done, bad_request, forbidden, not_found, internal_error,
  delete_user_sessions,
}

abbrev pub min_password_len : ℕ
min_password_len = 8

abbrev pub max_password_len : ℕ
max_password_len = 72

-- Whether `passwordPolicyError` finds nothing.
unfoldable pub password_allowed : Str → Bool
unfolding byte_length
password_allowed password =
    not (ltb (byte_length password) min_password_len)
    && not (ltb max_password_len (byte_length password))

abbrev has_domain : Option (Str × Str) → Bool
has_domain none = false
has_domain (some ([], domain)) = false
has_domain (some (c ∷ name, domain)) =
    not (any (λ x. x == b'@') domain) && any (λ x. x == b'.') domain

unfoldable pub valid_email : Str → Bool
valid_email s =
    not (any (λ c. c == b' ' || c == b'\t' || c == b'\r' || c == b'\n') s)
    && has_domain (cut_at b'@' s)

-- The body of the request; a field that it leaves out is none.
pub record Change : Type 0 where
  pub new_alias : Option Str
  pub new_admin : Option Bool
  pub new_blocked : Option Bool
  pub new_password : Option Str

abbrev pub chosen {ℓ} : {A : Type ℓ} → Option A → A → A
chosen none old = old
chosen (some new) old = new

unfoldable pub proposed : Change → User → User
proposed c u = record u {
  alias = chosen_alias c.new_alias u.alias;
  admin = chosen c.new_admin u.admin;
  blocked = chosen c.new_blocked u.blocked;
}
  where
    chosen_alias : Option Str → Str → Str
    chosen_alias none old = old
    chosen_alias (some new) old = trim_space new

abbrev pub asks : Bool → Option Bool → Bool
asks wanted none = false
asks true (some b) = b
asks false (some b) = not b

abbrev pub active : User → Bool
active u = u.admin && not u.blocked

unfoldable pub active_admin_remains : Map User → Str → User → Bool
active_admin_remains [] changed_name changed = false
active_admin_remains ((name, u) ∷ users) changed_name changed =
    active (if str_eq name changed_name then changed else u)
    || active_admin_remains users changed_name changed

-- `Config.ActiveAdmins`
unfoldable pub active_admins : Map User → ℕ
active_admins [] = 0
active_admins ((name, u) ∷ users) = (if active u then 1 else 0) + active_admins users

-- The range over the accounts, up to the first one with the id.
unfoldable pub first_with_id : Map User → ℕ → Option (Str × User)
first_with_id [] id = none
first_with_id ((name, u) ∷ users) id =
    if u.user_id == id then some (name, u) else first_with_id users id

-- An empty name is the same as no account.
abbrev pub named : Option (Str × User) → Option (Str × User)
named none = none
named (some ([], u)) = none
named (some (c ∷ name, u)) = some (c ∷ name, u)

-- The account with an id.
unfoldable pub user_by_id : Map User → ℕ → Option (Str × User)
unfolding first_with_id
user_by_id users id = named (first_with_id users id)

-- The new hash, none where the password stays; the error is the reply.
pub data NewHash : Type 0 where
  kept : NewHash
  changed : Str → NewHash
  refused : Reply → NewHash

abbrev hashed : Option Str → NewHash
hashed none = refused internal_error
hashed (some hash) = changed hash

unfoldable pub new_hash : (Str → Option Str) → Option Str → NewHash
unfolding password_allowed
new_hash hash_password none = kept
new_hash hash_password (some []) = kept
new_hash hash_password (some (c ∷ password)) =
    if password_allowed (c ∷ password)
    then hashed (hash_password (c ∷ password))
    else refused bad_request

-- The write of the configuration and what follows it; `logs_out` says whether the sessions go.
unfoldable pub write_user : Bool → Server → Str → User → Bool → Server × Reply
unfolding delete_user_sessions
write_user saved s name updated logs_out =
    let s' : Server = record s { users = insert name updated s.users } in
    if saved
    then (
      if logs_out then record s' { sessions = delete_user_sessions name s'.sessions } else s',
      done,
    )
    else (s', internal_error)

abbrev pub write_hash : Bool → Server → Str → User → User → NewHash → Server × Reply
write_hash saved s name u updated kept =
    write_user saved s name updated (updated.blocked && not u.blocked)
write_hash saved s name u updated (changed hash) =
    write_user saved s name (record updated { password_hash = hash }) true
write_hash saved s name u updated (refused reply) = (s, reply)

abbrev pub update_found :
    (Str → Option Str) → Bool → Server → Str → Change → Option (Str × User) → Server × Reply
update_found hash_password saved s caller c none = (s, not_found)
update_found hash_password saved s caller c (some (name, u)) =
    let updated = proposed c u in
    let self = str_eq name caller in
    if self && asks true c.new_blocked || self && asks false c.new_admin
    then (s, forbidden)
    else if not (active_admin_remains s.users name updated)
    then (s, forbidden)
    else write_hash saved s name u updated (new_hash hash_password c.new_password)

-- A name or a body that cannot be read is answered before any of this, and changes nothing.
unfoldable pub handle_update_user :
    (Str → Option Str) → Bool → Server → Str → ℕ → Change → Server × Reply
unfolding proposed active_admin_remains user_by_id new_hash write_user
handle_update_user hash_password saved s caller id c =
    update_found hash_password saved s caller c (user_by_id s.users id)
