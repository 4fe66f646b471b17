-- ===== src/Tests/Signing.antt =====
-- Tests of the accounts of internal/server/auth.go, users.go and tokens.go. A hash is its text here,
-- behind a mark.
use file_fin.Prelude.{
  ℕ, ◌+◌, ◌-◌, ◌/◌, ◌≡◌, ◌≢◌, refl, arith, Bool, true, false, none, some, Option, List, [], ◌∷◌,
  any, Str, bytes, str_eq, lookup, insert,
}
use file_fin.Strings.{trim_space, trim_left, trim_right, is_space, cut_at}
use file_fin.Strings.Paths.{to_lower, cut_prefix}
use file_fin.LoginLimit.{
  new_login_limiter, allowed, allowed_records, lock_remaining, fail, record_fail, prune,
  bump_attempt, current_window, login_account_lock,
}
use file_fin.LoginLimit.Lockout.{last_of, times}
use file_fin.Accounts.{
  User, Server, too_many_requests, find_user, scan_users, normalize_username, create_session,
  session_user, auth_user_from_bearer, scan_tokens, stamp_token,
}
use file_fin.Accounts.Login.{
  check_password, compared_hash, begin_login, finish_login, handle_login, stamp_login,
}
use file_fin.Accounts.Users.{
  Change, handle_update_user, user_by_id, proposed, active_admin_remains, active_admins, new_hash,
  write_user, valid_email,
}
use file_fin.Accounts.Throttled.{login_all, places, handle_login-locked, handle_login-logged_in}
use file_fin.Accounts.Admins.{Administered, handle_update_user-Administered}
use file_fin.Accounts.Blocking.{
  LoggedOut, StillIn, handle_update_user-LoggedOut, handle_update_user-again, finish_login-late,
}
use file_fin.Accounts.Bearer.{Owner, auth_user_from_bearer-Owner}

abbrev matches : Str → Str → Bool
matches hash password = str_eq hash (b'#' ∷ password)

abbrev dummy : Str
dummy = bytes "#placeholder"

abbrev hash_it : Str → Option Str
hash_it password = some (b'#' ∷ password)

abbrev hash_token : Str → Str
hash_token secret = b'$' ∷ secret

abbrev account : ℕ → Bool → Str → User
account id admin hash = record {
  user_id = id;
  password_hash = hash;
  alias = [];
  admin = admin;
  blocked = false;
  created_at = 0;
  last_login_at = 0;
  tokens =
      record {
        id = bytes "t";
        label = [];
        hash = bytes "$secret";
        created_at = 0;
        last_used_at = 0;
      }
      ∷ [];
}

abbrev ann : Str
ann = bytes "ann@x.org"

abbrev bob : Str
bob = bytes "bob@x.org"

abbrev house : Server
house = record {
  users =
      (ann, account 1 true (bytes "#anns"))
      ∷ (bob, record (account 2 false (bytes "#bobs")) { tokens = [] })
      ∷ [];
  sessions = (bytes "s1", ann) ∷ (bytes "s2", bob) ∷ [];
  logins = new_login_limiter;
}

emails : valid_email (bytes "a@b.c") ≡ true
unfolding valid_email cut_at any
emails = refl

bad_emails : valid_email (bytes "a@b@c.d") ≡ false
unfolding valid_email cut_at any
bad_emails = refl

abbrev block : Change
block = record { new_alias = none; new_admin = none; new_blocked = some true; new_password = none }

handle_login-logged_in_example :
    (name : Str) × (u : User) × ((allowed house.logins
        (normalize_username (bytes " Bob@x.org"))
        (bytes "ip")
        5).0
      ≡ true)
    × (find_user house.users (normalize_username (bytes " Bob@x.org")) ≡ some (u, name))
    × (u.blocked ≡ false)
    × (matches (compared_hash dummy u) (bytes "bobs") ≡ true)
    × ((handle_login matches dummy 5 9
          (some (bytes "s3"))
          house
          (bytes "ip")
          (some (bytes " Bob@x.org", bytes "bobs"))).0.sessions
        ≡ insert (bytes "s3") name house.sessions)
unfolding handle_login begin_login finish_login create_session stamp_login check_password find_user
    scan_users normalize_username to_lower trim_space trim_left trim_right is_space str_eq lookup
    insert allowed allowed_records lock_remaining new_login_limiter
handle_login-logged_in_example =
    handle_login-logged_in matches dummy 9 (some (bytes "s3")) 5 house (bytes "ip")
      (bytes " Bob@x.org") (bytes "bobs") (bytes "s3") refl

abbrev wrong : Str × ℕ × Str
wrong = (bytes "ip", 5, bytes "guess")

abbrev more : List (Str × ℕ × Str)
more = wrong ∷ wrong ∷ wrong ∷ wrong ∷ []

handle_login-locked_example :
    let s' = login_all matches dummy 9 none house bob (wrong ∷ more) in
    handle_login matches dummy 7 9 none s' (bytes "home") (some (bob, bytes "bobs")) ≡ (
      s',
      too_many_requests (
          (last_of 5 (times (places matches dummy 9 none more)) + login_account_lock - 7)
            / 1000000000
          + 1),
    )
unfolding handle_login begin_login finish_login check_password find_user scan_users
    normalize_username to_lower trim_space trim_left trim_right is_space str_eq lookup insert
    allowed allowed_records lock_remaining new_login_limiter fail record_fail prune bump_attempt
    current_window
handle_login-locked_example =
    handle_login-locked matches dummy 9 none house bob (bytes "ip") (bytes "guess") 5 more
      (bytes "home") (bytes "bobs") 7 tt refl refl (omega arith)
      (refl, (refl, (refl, (refl, (refl, tt))))) (omega arith)

handle_update_user-Administered_example :
    Administered (handle_update_user hash_it true house bob 1 block).0.users
unfolding lookup str_eq active_admins
handle_update_user-Administered_example =
    handle_update_user-Administered hash_it true house bob 1 block ((refl, (refl, tt)), omega arith)

handle_update_user-LoggedOut_example :
    LoggedOut (handle_update_user hash_it true house ann 2 block).0 bob (bytes "s2")
unfolding handle_update_user user_by_id proposed active_admin_remains new_hash write_user lookup
    str_eq
handle_update_user-LoggedOut_example =
    handle_update_user-LoggedOut hash_it true house ann 2 block bob (bytes "s2")
      (record (account 2 false (bytes "#bobs")) { tokens = [] }) (refl, (refl, tt)) refl refl refl
      refl

handle_update_user-again_example :
    let s' = (handle_update_user hash_it false house ann 2 block).0 in
    StillIn hash_token 5 (handle_update_user hash_it true s' ann 2 block).0 bob (bytes "s2") []
unfolding handle_update_user user_by_id proposed active_admin_remains new_hash write_user lookup
    insert str_eq session_user
handle_update_user-again_example =
    handle_update_user-again hash_it hash_token 5 house ann 2 block bob (bytes "s2") []
      (record (account 2 false (bytes "#bobs")) { tokens = [] }) (refl, (refl, tt)) refl refl refl
      refl refl refl

finish_login-late_example :
    let s' = (handle_update_user hash_it true house ann 2 block).0 in
    let known = check_password matches dummy house.users bob (bytes "bobs") in
    let t = (finish_login 5 9 (some (bytes "s3")) s' bob (bytes "ip") known).0 in
    StillIn hash_token 6 t bob (bytes "s3") []
unfolding handle_update_user user_by_id proposed active_admin_remains new_hash write_user lookup
    str_eq check_password find_user scan_users normalize_username to_lower trim_space trim_left
    trim_right is_space
finish_login-late_example =
    finish_login-late matches dummy hash_it hash_token 5 9 6 house ann 2 block bob (bytes "s3") bob
      (bytes "ip") (bytes "bobs") [] (record (account 2 false (bytes "#bobs")) { tokens = [] })
      (refl, (refl, tt)) refl refl refl refl refl

auth_user_from_bearer-Owner_example :
    (secret : Str) × (cut_prefix (bytes "Bearer secret") (bytes "Bearer ") ≡ some secret)
    × (secret ≢ [])
    × Owner (hash_token secret) house.users ann
unfolding auth_user_from_bearer cut_prefix scan_tokens stamp_token str_eq lookup
auth_user_from_bearer-Owner_example =
    auth_user_from_bearer-Owner hash_token 5 house (bytes "Bearer secret") ann (refl, (refl, tt))
      refl
