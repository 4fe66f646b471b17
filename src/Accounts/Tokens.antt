-- ===== src/Accounts/Tokens.antt =====
-- internal/server/tokens.go: a user's own access tokens. The secret and the id of a new token are
-- random and come as arguments.
use file_fin.Prelude.{
  ℕ, Bool, Option, none, some, List, [], ◌∷◌, ◌++◌, map, if◌then◌else◌, Str, str_eq, lookup, insert,
}
use file_fin.Strings.{trim_space}
use file_fin.Accounts.{
  PersonalToken, User, Server, keep_token, Reply, done, unauthorized, not_found, internal_error,
}

pub record TokenView : Type 0 where
  pub view_id : Str
  pub view_label : Str
  pub view_created_at : ℕ
  pub view_last_used_at : ℕ

abbrev pub token_view : PersonalToken → TokenView
token_view t = record {
  view_id = t.id;
  view_label = t.label;
  view_created_at = t.created_at;
  view_last_used_at = t.last_used_at;
}

abbrev views_of : Option User → Option (List TokenView)
views_of none = none
views_of (some u) = some (map token_view u.tokens)

-- None where the account is gone.
unfoldable pub handle_list_tokens : Server → Str → Option (List TokenView)
handle_list_tokens s user = views_of (lookup user s.users)

unfoldable pub new_personal_token : (Str → Str) → Str → Str → Str → ℕ → PersonalToken
new_personal_token hash_token secret id label now = record {
  id = id;
  label = trim_space label;
  hash = hash_token secret;
  created_at = now;
  last_used_at = 0;
}

abbrev saved_reply : Bool → Reply
saved_reply saved = if saved then done else internal_error

abbrev add_token : Bool → Server → Str → PersonalToken → Option User → Server × Reply
add_token saved s user rec none = (s, unauthorized)
add_token saved s user rec (some u) = (
  record s { users = insert user (record u { tokens = u.tokens ++ rec ∷ [] }) s.users },
  saved_reply saved,
)

unfoldable pub handle_create_token :
    (Str → Str) → Bool → ℕ → Server → Str → Str → Str → Str → Server × Reply
unfolding new_personal_token
handle_create_token hash_token saved now s user secret id label =
    add_token saved s user (new_personal_token hash_token secret id label now) (lookup user s.users)

-- The tokens without the first one of an id, none where there is none.
unfoldable pub drop_token : Str → List PersonalToken → Option (List PersonalToken)
drop_token id [] = none
drop_token id (t ∷ ts) = if str_eq t.id id then some ts else keep_token t (drop_token id ts)

abbrev pub write_tokens : Bool → Server → Str → User → Option (List PersonalToken) → Server × Reply
write_tokens saved s user u none = (s, not_found)
write_tokens saved s user u (some ts) =
    (record s { users = insert user (record u { tokens = ts }) s.users }, saved_reply saved)

abbrev pub revoke_of : Bool → Server → Str → Str → Option User → Server × Reply
revoke_of saved s user id none = (s, unauthorized)
revoke_of saved s user id (some u) = write_tokens saved s user u (drop_token id u.tokens)

unfoldable pub handle_revoke_token : Bool → Server → Str → Str → Server × Reply
unfolding drop_token
handle_revoke_token saved s user id = revoke_of saved s user id (lookup user s.users)
