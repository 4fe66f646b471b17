-- ===== src/Accounts/Blocking.antt =====
-- internal/server/users.go and internal/server/auth.go: what blocking an account does to its sessions.
use file_fin.Prelude.{
  ℕ, ◌≡◌, ◌≢◌, refl, Bool, true, false, not, ◌&&◌, ◌||◌, Option, none, some, [], ◌∷◌, Bool-cases,
  Option-cases, inl, inr, Str, str_eq, str_eq_iff, str_eq_self, Map, lookup, insert, lookup-insert,
  ◌∙◌, lookup-sweep, unless_dropped, Distinct, arith,
}
use file_fin.Accounts.{
  User, Server, Reply, done, forbidden, bad_request, internal_error, session_user,
  delete_user_sessions, create_session, auth,
}
use file_fin.Accounts.Login.{finish_login, check_password, stamp_login}
use file_fin.Accounts.Users.{
  Change, proposed, first_with_id, named, user_by_id, new_hash, write_user, write_hash,
  update_found, handle_update_user, NewHash, kept, changed, refused, asks, active_admin_remains,
  password_allowed,
}

-- No session of a user is left.
unless_dropped-user :
    (user : Str) (found : Option Str) → unless_dropped (λ u. str_eq u user) found ≢ some user
unless_dropped-user user none h = cc
unless_dropped-user user (some u) h = ground (arith, str_eq_self user, str_eq_iff u user)

session_user-delete_user :
    (user id : Str) (m : Map Str)
    → Distinct m
    → session_user (delete_user_sessions user m) id ≢ some user
unfolding session_user delete_user_sessions
session_user-delete_user user id m d h =
    unless_dropped-user user (lookup id m) (rw (lookup-sweep (λ u. str_eq u user) id m d) at h)

lookup-same {ℓ} : {V : Type ℓ} (k : Str) (v : V) (m : Map V) → lookup k (insert k v m) ≡ some v
lookup-same k v m = rw (lookup-insert k k v m, str_eq_self k) refl

-- What a handler leaves when it blocks an account for good.
abbrev pub LoggedOut : Server → Str → Str → Type 0
LoggedOut s name sid =
    ((u : User) × (lookup name s.users ≡ some u) × (u.blocked ≡ true))
    × (session_user s.sessions sid ≢ some name)

write_user-LoggedOut :
    (saved : Bool) (s : Server) (name sid : Str) (u : User)
    → Distinct s.sessions
    → u.blocked ≡ true
    → (write_user saved s name u true).1 ≡ done
    → LoggedOut (write_user saved s name u true).0 name sid
unfolding write_user
write_user-LoggedOut true s name sid u d b h =
    ((u, lookup-same name u s.users, b), session_user-delete_user name sid s.sessions d)
write_user-LoggedOut false s name sid u d b h = cc

write_hash-LoggedOut :
    (saved : Bool) (s : Server) (name sid : Str) (old u : User) (hash : NewHash)
    → Distinct s.sessions
    → old.blocked ≡ false
    → u.blocked ≡ true
    → ((reply : Reply) → hash ≡ refused reply → reply ≢ done)
    → (write_hash saved s name old u hash).1 ≡ done
    → LoggedOut (write_hash saved s name old u hash).0 name sid
write_hash-LoggedOut saved s name sid old u kept d o b r h =
    let out : u.blocked && not old.blocked ≡ true = rw (o, b) refl in
    let h' : (write_user saved s name u true).1 ≡ done = rw out at h in
    rw out (write_user-LoggedOut saved s name sid u d b h')
write_hash-LoggedOut saved s name sid old u (changed hash) d o b r h =
    write_user-LoggedOut saved s name sid (record u { password_hash = hash }) d b h
write_hash-LoggedOut saved s name sid old u (refused reply) d o b r h = absurd (r reply refl h)

new_hash-refused :
    (hash_password : Str → Option Str) (password : Option Str) (reply : Reply)
    → new_hash hash_password password ≡ refused reply
    → reply ≢ done
unfolding new_hash
new_hash-refused hash_password none reply h e = cc
new_hash-refused hash_password (some []) reply h e = cc
new_hash-refused hash_password (some (c ∷ password)) reply h e =
    elim (Bool-cases (password_allowed (c ∷ password))) [
      | inl a ↦ elim (Option-cases (hash_password (c ∷ password))) [
        | inl n ↦ let same : refused internal_error ≡ refused reply = rw (a, n) at h in cc
        | inr (k, some_hash) ↦ let same : changed k ≡ refused reply = rw (a, some_hash) at h in cc
      ]
      | inr a ↦ let same : refused bad_request ≡ refused reply = rw a at h in cc
    ]

update_found-LoggedOut :
    (hash_password : Str → Option Str) (saved : Bool) (s : Server) (caller : Str) (c : Change)
    (name sid : Str) (u : User)
    → Distinct s.sessions
    → u.blocked ≡ false
    → c.new_blocked ≡ some true
    → (update_found hash_password saved s caller c (some (name, u))).1 ≡ done
    → LoggedOut (update_found hash_password saved s caller c (some (name, u))).0 name sid
update_found-LoggedOut hash_password saved s caller c name sid u d old asked h =
    let updated = proposed c u in
    let hash = new_hash hash_password c.new_password in
    let own =
      str_eq name caller && asks true c.new_blocked
      || str_eq name caller && asks false c.new_admin in
    let blocks : updated.blocked ≡ true = unfold proposed in rw asked refl in
    elim (Bool-cases own) [
      | inl e ↦ absurd (let no : forbidden ≡ done = rw e at h in cc)
      | inr e ↦ elim (Bool-cases (active_admin_remains s.users name updated)) [
        | inl r ↦
            let h' : (write_hash saved s name u updated hash).1 ≡ done = rw (e, r) at h in
            rw (e, r)
              (write_hash-LoggedOut saved s name sid u updated hash d old blocks
                (new_hash-refused hash_password c.new_password) h')
        | inr r ↦ absurd (let no : forbidden ≡ done = rw (e, r) at h in cc)
      ]
    ]

-- A request that blocks an account and is answered without an error leaves the account blocked and
-- no session of it, under whatever id.
pub handle_update_user-LoggedOut :
    (hash_password : Str → Option Str) (saved : Bool) (s : Server) (caller : Str) (id : ℕ)
    (c : Change) (name sid : Str) (u : User)
    → Distinct s.sessions
    → user_by_id s.users id ≡ some (name, u)
    → u.blocked ≡ false
    → c.new_blocked ≡ some true
    → (handle_update_user hash_password saved s caller id c).1 ≡ done
    → LoggedOut (handle_update_user hash_password saved s caller id c).0 name sid
unfolding handle_update_user
handle_update_user-LoggedOut hash_password saved s caller id c name sid u d found old asked h =
    let same : handle_update_user hash_password saved s caller id c
        ≡ update_found hash_password saved s caller c (some (name, u)) =
      rw found refl in
    let h' : (update_found hash_password saved s caller c (some (name, u))).1 ≡ done =
      rw same at h in
    rw same (update_found-LoggedOut hash_password saved s caller c name sid u d old asked h')

-- A blocked account for which a cookie is still accepted.
abbrev pub StillIn : (Str → Str) → ℕ → Server → Str → Str → Str → Type 0
StillIn hash_token now s name sid header =
    ((u : User) × (lookup name s.users ≡ some u) × (u.blocked ≡ true))
    × (auth hash_token now s (some sid) header ≡ (s, some name))

auth-session :
    (hash_token : Str → Str) (now : ℕ) (s : Server) (name sid header : Str)
    → session_user s.sessions sid ≡ some name
    → auth hash_token now s (some sid) header ≡ (s, some name)
unfolding auth
auth-session hash_token now s name sid header h = rw h refl

first_with_id-lookup :
    (users : Map User) (id : ℕ) (name : Str) (u : User)
    → first_with_id users id ≡ some (name, u)
    → lookup name users ≢ none
unfolding first_with_id lookup
first_with_id-lookup [] id name u h = cc
first_with_id-lookup ((k, w) ∷ users) id name u h =
    ground (arith, str_eq_self name, first_with_id-lookup users id name u)

first_with_id-insert :
    (users : Map User) (id : ℕ) (name : Str) (u v : User)
    → Distinct users
    → v.user_id ≡ u.user_id
    → first_with_id users id ≡ some (name, u)
    → first_with_id (insert name v users) id ≡ some (name, v)
unfolding first_with_id insert
first_with_id-insert [] id name u v d same h = cc
first_with_id-insert ((k, w) ∷ users) id name u v d same h = ground (
  arith,
  str_eq_self name,
  str_eq_iff k name,
  first_with_id-lookup users id name u,
  first_with_id-insert users id name u v,
)

named-some :
    (o : Option (Str × User)) (name : Str) (u v : User)
    → named o ≡ some (name, u)
    → (o ≡ some (name, u)) × (named (some (name, v)) ≡ some (name, v))
named-some none name u v h = cc
named-some (some ([], w)) name u v h = cc
named-some (some (x ∷ k, w)) [] u v h = cc
named-some (some (x ∷ k, w)) (y ∷ name) u v h = (h, refl)

user_by_id-insert :
    (users : Map User) (id : ℕ) (name : Str) (u v : User)
    → Distinct users
    → v.user_id ≡ u.user_id
    → user_by_id users id ≡ some (name, u)
    → user_by_id (insert name v users) id ≡ some (name, v)
unfolding user_by_id
user_by_id-insert users id name u v d same h =
    let found = named-some (first_with_id users id) name u v h in
    rw (first_with_id-insert users id name u v d same found.0) found.1

-- A change that keeps the password and passes the guards is written.
update_found-written :
    (hash_password : Str → Option Str) (saved : Bool) (s : Server) (caller : Str) (c : Change)
    (name : Str) (u : User)
    → c.new_password ≡ none
    → (update_found hash_password saved s caller c (some (name, u))).1 ≢ forbidden
    → update_found hash_password saved s caller c (some (name, u))
      ≡ write_user saved s name (proposed c u) ((proposed c u).blocked && not u.blocked)
update_found-written hash_password saved s caller c name u keeps passes =
    let updated = proposed c u in
    let hash : new_hash hash_password c.new_password ≡ kept = unfold new_hash in rw keeps refl in
    let own =
      str_eq name caller && asks true c.new_blocked
      || str_eq name caller && asks false c.new_admin in
    elim (Bool-cases own) [
      | inl e ↦ absurd (let no : forbidden ≢ forbidden = rw e at passes in no refl)
      | inr e ↦ elim (Bool-cases (active_admin_remains s.users name updated)) [
        | inl r ↦ rw (e, r, hash) refl
        | inr r ↦ absurd (let no : forbidden ≢ forbidden = rw (e, r) at passes in no refl)
      ]
    ]

-- Where a request that blocks an account, and does not change the password, is answered with an
-- error because the configuration cannot be saved, and the same request again is saved and answered
-- without an error, the account is blocked and every session of it goes on working.
pub handle_update_user-again :
    (hash_password : Str → Option Str) (hash_token : Str → Str) (now : ℕ) (s : Server)
    (caller : Str) (id : ℕ) (c : Change) (name sid header : Str) (u : User)
    → Distinct s.users
    → user_by_id s.users id ≡ some (name, u)
    → c.new_blocked ≡ some true
    → c.new_password ≡ none
    → session_user s.sessions sid ≡ some name
    → (handle_update_user hash_password false s caller id c).1 ≡ internal_error
    → let s' = (handle_update_user hash_password false s caller id c).0 in
      (handle_update_user hash_password true s' caller id c).1 ≡ done
      → StillIn hash_token now
          (handle_update_user hash_password true s' caller id c).0
          name
          sid
          header
unfolding handle_update_user write_user
handle_update_user-again hash_password hash_token now s caller id c name sid header u d found asked
      keeps here first second =
    let v = proposed c u in
    let w = proposed c v in
    let s' : Server = record s { users = insert name v s.users } in
    let t : Server = record s' { users = insert name w s'.users } in
    let found' : user_by_id s'.users id ≡ some (name, v) =
      user_by_id-insert s.users id name u v d (unfold proposed in refl) found in
    let v_blocked : v.blocked ≡ true = unfold proposed in rw asked refl in
    let w_blocked : w.blocked ≡ true = unfold proposed in rw asked refl in
    let first' : (update_found hash_password false s caller c (some (name, u))).1 ≡ internal_error =
      rw found at first in
    let out : update_found hash_password false s caller c (user_by_id s.users id)
        ≡ (s', internal_error) =
      rw found (update_found-written hash_password false s caller c name u keeps (λ e. cc)) in
    let second' : (update_found hash_password true s' caller c (some (name, v))).1 ≡ done =
      rw (out, found') at second in
    let out' : update_found hash_password true s' caller c (user_by_id s'.users id) ≡ (t, done) =
      rw found' (
        update_found-written hash_password true s' caller c name v keeps (λ e. cc)
        ∙ rw (w_blocked, v_blocked) refl) in
    rw (out, out')
      (
        (w, lookup-same name w s'.users, w_blocked),
        auth-session hash_token now t name sid header here,
      )

finish_login-opened :
    (now unix : ℕ) (fresh norm ip name : Str) (s : Server) (u : User)
    → lookup name s.users ≡ some u
    → u.blocked ≡ true
    → let t = (finish_login now unix (some fresh) s norm ip (some name)).0 in
      ((v : User) × (lookup name t.users ≡ some v) × (v.blocked ≡ true))
      × (session_user t.sessions fresh ≡ some name)
unfolding finish_login stamp_login create_session session_user
finish_login-opened now unix fresh norm ip name s u h b = rw h (
  (record u { last_login_at = unix }, lookup-same name _ s.users, b),
  lookup-same fresh name s.sessions,
)

-- A login whose password was compared before its account was blocked, and that goes on after the
-- request that blocked it was answered without an error, opens a session that is accepted for the
-- blocked account.
pub finish_login-late :
    (matches : Str → Str → Bool) (dummy_hash : Str) (hash_password : Str → Option Str)
    (hash_token : Str → Str) (now unix later : ℕ) (s : Server) (caller : Str) (id : ℕ) (c : Change)
    (name fresh norm ip password header : Str) (u : User)
    → Distinct s.sessions
    → user_by_id s.users id ≡ some (name, u)
    → u.blocked ≡ false
    → c.new_blocked ≡ some true
    → (handle_update_user hash_password true s caller id c).1 ≡ done
    → check_password matches dummy_hash s.users norm password ≡ some name
    → let s' = (handle_update_user hash_password true s caller id c).0 in
      let known = check_password matches dummy_hash s.users norm password in
      let t = (finish_login now unix (some fresh) s' norm ip known).0 in
      StillIn hash_token later t name fresh header
finish_login-late matches dummy_hash hash_password hash_token now unix later s caller id c name
      fresh norm ip password header u d found free asked answered fits =
    let s' = (handle_update_user hash_password true s caller id c).0 in
    let t = (finish_login now unix (some fresh) s' norm ip (some name)).0 in
    let out =
      handle_update_user-LoggedOut hash_password true s caller id c name fresh u d found free asked
        answered in
    let (v, there, blocked) = out.0 in
    let opened = finish_login-opened now unix fresh norm ip name s' v there blocked in
    rw fits (opened.0, auth-session hash_token later t name fresh header opened.1)
