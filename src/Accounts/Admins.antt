-- ===== src/Accounts/Admins.antt =====
-- internal/server/users.go: an installation keeps an admin who can log in.
use file_fin.Prelude.{
  ℕ, ◌<◌, ◌≡◌, refl, Bool, true, false, not, ◌&&◌, ◌||◌, Option, none, some, [], ◌∷◌, Bool-cases,
  inl, inr, Str, str_eq, str_eq_iff, Map, lookup, insert, Distinct, insert-Distinct, arith,
}
use file_fin.Accounts.{User, Server}
use file_fin.Accounts.Users.{
  Change, active, active_admin_remains, active_admins, user_by_id, proposed, new_hash, write_user,
  write_hash, update_found, handle_update_user, NewHash, kept, changed, refused, asks,
}

active_admins-absent :
    (users : Map User) (name : Str) (u : User)
    → lookup name users ≡ none
    → active_admin_remains users name u ≡ true
    → 0 < active_admins users
unfolding active_admin_remains active_admins lookup
active_admins-absent [] name u a h = cc
active_admins-absent ((k, v) ∷ users) name u a h = ground (arith, active_admins-absent users name u)

-- What `activeAdminRemains` answers is so once the change is written.
active_admins-insert :
    (users : Map User) (name : Str) (u : User)
    → Distinct users
    → active_admin_remains users name u ≡ true
    → 0 < active_admins (insert name u users)
unfolding active_admin_remains active_admins insert
active_admins-insert [] name u d h = cc
active_admins-insert ((k, v) ∷ users) name u d h =
    ground (
      arith,
      active_admins-insert users name u,
      active_admins-absent users name u,
      str_eq_iff k name,
    )

remains_same :
    (users : Map User) (name : Str) (u v : User)
    → active u ≡ active v
    → active_admin_remains users name u ≡ active_admin_remains users name v
unfolding active_admin_remains
remains_same [] name u v e = refl
remains_same ((k, w) ∷ users) name u v e = ground (arith, remains_same users name u v e)

-- The accounts that a handler leaves: without a key twice, and with an admin who is not blocked.
abbrev pub Administered : Map User → Type 0
Administered users = Distinct users × (0 < active_admins users)

write_user-Administered :
    (saved : Bool) (s : Server) (name : Str) (u : User) (logs_out : Bool)
    → Distinct s.users
    → active_admin_remains s.users name u ≡ true
    → Administered (write_user saved s name u logs_out).0.users
unfolding write_user
write_user-Administered true s name u true d h =
    (insert-Distinct name u s.users d, active_admins-insert s.users name u d h)
write_user-Administered true s name u false d h =
    (insert-Distinct name u s.users d, active_admins-insert s.users name u d h)
write_user-Administered false s name u logs_out d h =
    (insert-Distinct name u s.users d, active_admins-insert s.users name u d h)

write_hash-Administered :
    (saved : Bool) (s : Server) (name : Str) (old u : User) (hash : NewHash)
    → Administered s.users
    → active_admin_remains s.users name u ≡ true
    → Administered (write_hash saved s name old u hash).0.users
write_hash-Administered saved s name old u kept a h =
    write_user-Administered saved s name u (u.blocked && not old.blocked) a.0 h
write_hash-Administered saved s name old u (changed hash) a h =
    write_user-Administered saved s name (record u { password_hash = hash }) true a.0
      (rw (remains_same s.users name (record u { password_hash = hash }) u refl) h)
write_hash-Administered saved s name old u (refused reply) a h = a

update_found-Administered :
    (hash_password : Str → Option Str) (saved : Bool) (s : Server) (caller : Str) (c : Change)
    (found : Option (Str × User))
    → Administered s.users
    → Administered (update_found hash_password saved s caller c found).0.users
update_found-Administered hash_password saved s caller c none a = a
update_found-Administered hash_password saved s caller c (some (name, u)) a =
    let updated = proposed c u in
    let own =
      str_eq name caller && asks true c.new_blocked
      || str_eq name caller && asks false c.new_admin in
    elim (Bool-cases own) [
      | inl e ↦ rw e a
      | inr e ↦ elim (Bool-cases (active_admin_remains s.users name updated)) [
        | inl r ↦
            rw (e, r)
              (write_hash-Administered saved s name u updated
                (new_hash hash_password c.new_password) a r)
        | inr r ↦ rw (e, r) a
      ]
    ]

-- A change of an account, whoever asks for it and whatever it asks, whether it is refused, fails or
-- is written, and whether or not the configuration can be saved, leaves an installation that had an
-- admin who is not blocked with such an admin.
pub handle_update_user-Administered :
    (hash_password : Str → Option Str) (saved : Bool) (s : Server) (caller : Str) (id : ℕ)
    (c : Change)
    → Administered s.users
    → Administered (handle_update_user hash_password saved s caller id c).0.users
unfolding handle_update_user
handle_update_user-Administered hash_password saved s caller id c a =
    update_found-Administered hash_password saved s caller c (user_by_id s.users id) a
