-- ===== src/LoginLimit/Source.antt =====
-- internal/server/loginlimit.go, `clientIP` and `cookieSecure`: when a forwarded header is believed.
use file_fin.Prelude.{
  ◌≡◌, refl, Bool, true, false, ◌&&◌, not, Option, none, some, [], ◌∷◌, Str, str_eq, bytes, ◌==◌,
  if◌then◌else◌,
}
use file_fin.Strings.{trim_space, equal_fold}

-- Go's package net: `SplitHostPort` without its error, and `ParseIP` with `IsLoopback`, `none` for a
-- text that is no address.
pub record Net : Type 0 where
  pub split_host : Str → Option Str
  pub loopback : Str → Option Bool

-- What is used of a request: the peer, whether it came over TLS, and the first values of the two
-- headers, "" for a missing one.
pub record Request : Type 0 where
  pub remote_addr : Str
  pub tls : Bool
  pub forwarded_for : Str
  pub forwarded_proto : Str

unfoldable pub before_comma : Str → Str
before_comma [] = []
before_comma (c ∷ s) = let rest = before_comma s in if c == b',' then [] else c ∷ rest

module _ (net : Net) where
  unfoldable pub host_of : Str → Str
  host_of addr = elim (net.split_host addr) [ none ↦ addr | some host ↦ host ]

  unfoldable pub is_loopback_host : Str → Bool
  is_loopback_host host = elim (net.loopback host) [
    | none ↦ str_eq host (bytes "localhost")
    | some b ↦ b
  ]

  unfoldable pub client_ip : Request → Str
  client_ip r =
      if is_loopback_host (host_of r.remote_addr) && not (str_eq r.forwarded_for [])
      then trim_space (before_comma r.forwarded_for)
      else host_of r.remote_addr

  unfoldable pub cookie_secure : Request → Bool
  cookie_secure r =
      if r.tls
      then true
      else is_loopback_host (host_of r.remote_addr) && equal_fold r.forwarded_proto (bytes "https")

  -- A request whose peer is not the loopback address has the same source address and the same
  -- cookie attribute whatever its forwarded headers say: neither can be forged by a direct client.
  pub client_ip-direct :
      (r : Request) (xff proto : Str)
      → is_loopback_host (host_of r.remote_addr) ≡ false
      → let s = record r { forwarded_for = xff; forwarded_proto = proto } in
        (client_ip s ≡ client_ip r) × (cookie_secure s ≡ cookie_secure r)
  unfolding client_ip cookie_secure
  client_ip-direct r xff proto h = (rw h refl, rw h refl)
