-- ===== src/Accounts/Bearer.antt =====
-- internal/server/auth.go and internal/server/tokens.go: whom a bearer token stands for.
use file_fin.Prelude.{
  ℕ, ◌≡◌, ◌≢◌, ◌⊎◌, refl, Bool, true, false, Option, none, some, List, [], ◌∷◌, any, if◌then◌else◌,
  Bool-cases, inl, inr, Str, bytes, str_eq, str_eq_iff, str_eq_self, Map, lookup, Distinct,
}
use file_fin.Strings.Paths.{cut_prefix}
use file_fin.Accounts.{
  PersonalToken, User, Server, keep_token, stamp_token, stamped, first_of, scan_tokens, store_user,
  bearer_secret, auth_user_from_bearer,
}

-- One of the account's tokens has the hash.
abbrev pub holds : Str → User → Bool
holds hash u = any (λ t. str_eq t.hash hash) u.tokens

-- The account that the scan stops at, as it was before its token was stamped.
abbrev pub Owner : Str → Map User → Str → Type 0
Owner hash users name =
    (u : User) × (lookup name users ≡ some u) × (u.blocked ≡ false) × (holds hash u ≡ true)

keep_token-some :
    (t : PersonalToken) (found : Option (List PersonalToken)) (ts : List PersonalToken)
    → keep_token t found ≡ some ts
    → (rest : List PersonalToken) × (found ≡ some rest)
keep_token-some t none ts h = cc
keep_token-some t (some rest) ts h = (rest, refl)

stamp_token-holds :
    (hash : Str) (now : ℕ) (ts ts' : List PersonalToken)
    → stamp_token hash now ts ≡ some ts'
    → any (λ t. str_eq t.hash hash) ts ≡ true
unfolding stamp_token any
stamp_token-holds hash now [] ts' h = cc
stamp_token-holds hash now (t ∷ ts) ts' h = elim (Bool-cases (str_eq t.hash hash)) [
  | inl e ↦ rw e refl
  | inr e ↦
      let kept : keep_token t (stamp_token hash now ts) ≡ some ts' = rw e at h in
      let (rest, found) = keep_token-some t (stamp_token hash now ts) ts' kept in
      rw (e, stamp_token-holds hash now ts rest found) refl
]

Owner-later :
    (hash k name : Str) (v : User) (users : Map User)
    → lookup k users ≡ none
    → Owner hash users name
    → Owner hash ((k, v) ∷ users) name
unfolding lookup
Owner-later hash k name v users absent (u, found, free, has) = elim (Bool-cases (str_eq k name)) [
  | inl e ↦ absurd (
      let same : k ≡ name = (str_eq_iff k name).0 e in
      let gone : lookup name users ≡ none = rw (← same) absent in cc)
  | inr e ↦ (u, rw e found, free, has)
]

-- The scan stops at the first account, or goes on.
first_of-some :
    (blocked : Bool) (k : Str) (v : User) (ts : Option (List PersonalToken))
    (rest : Option (Str × User)) (name : Str) (u : User)
    → first_of (if blocked then none else stamped k v ts) rest ≡ some (name, u)
    → (rest ≡ some (name, u))
      ⊎ ((found : List PersonalToken) × (ts ≡ some found) × (blocked ≡ false) × (k ≡ name))
first_of-some true k v ts rest name u h = inl h
first_of-some false k v none rest name u h = inl h
first_of-some false k v (some found) rest name u h = inr (found, refl, refl, cc)

scan_tokens-Owner :
    (hash : Str) (now : ℕ) (users : Map User) (name : Str) (u : User)
    → Distinct users
    → scan_tokens hash now users ≡ some (name, u)
    → Owner hash users name
unfolding scan_tokens lookup
scan_tokens-Owner hash now [] name u d h = cc
scan_tokens-Owner hash now ((k, v) ∷ users) name u d h =
    elim (first_of-some v.blocked k v (stamp_token hash now v.tokens) (scan_tokens hash now users)
      name u h) [
        | inl rest ↦
            Owner-later hash k name v users d.0 (scan_tokens-Owner hash now users name u d.1 rest)
        | inr (ts, found, free, same) ↦ (
          v,
          rw (← same) (rw (str_eq_self k) refl),
          free,
          stamp_token-holds hash now v.tokens ts found,
        )
      ]

store_user-some :
    (s : Server) (found : Option (Str × User)) (name : Str)
    → (store_user s found).1 ≡ some name
    → (u : User) × (found ≡ some (name, u))
store_user-some s none name h = cc
store_user-some s (some (k, u)) name h = let same : k ≡ name = cc in (u, rw same refl)

bearer_secret-Owner :
    (hash_token : Str → Str) (now : ℕ) (s : Server) (found : Option Str) (name : Str)
    → Distinct s.users
    → (bearer_secret hash_token now s found).1 ≡ some name
    → (secret : Str) × (found ≡ some secret)
      × (secret ≢ [])
      × Owner (hash_token secret) s.users name
bearer_secret-Owner hash_token now s none name d h = cc
bearer_secret-Owner hash_token now s (some []) name d h = cc
bearer_secret-Owner hash_token now s (some (c ∷ secret)) name d h =
    let hash = hash_token (c ∷ secret) in
    let (u, found) = store_user-some s (scan_tokens hash now s.users) name h in
    (c ∷ secret, refl, λ e. cc, scan_tokens-Owner hash now s.users name u d found)

-- A bearer header that is accepted for a user is `Bearer ` and a secret that is not empty, and the
-- user's account is not blocked and has a token with the secret's hash.
pub auth_user_from_bearer-Owner :
    (hash_token : Str → Str) (now : ℕ) (s : Server) (header name : Str)
    → Distinct s.users
    → (auth_user_from_bearer hash_token now s header).1 ≡ some name
    → (secret : Str) × (cut_prefix header (bytes "Bearer ") ≡ some secret)
      × (secret ≢ [])
      × Owner (hash_token secret) s.users name
unfolding auth_user_from_bearer
auth_user_from_bearer-Owner hash_token now s header name d h =
    bearer_secret-Owner hash_token now s (cut_prefix header (bytes "Bearer ")) name d h
