-- ===== src/Client.antt =====
-- What the gateway reads of a request: its client, in middleware.go's `getClientIP`, and whether its
-- path is public.
mod Tests
use vxapigateway.Prelude.{
  ℕ, ◌≡◌, Bool, true, false, ◌||◌, List, [], ◌∷◌, Option, none, some, if◌then◌else◌,
}
use vxapigateway.Prelude.Bytes.{Bytes, codes, beq, has_prefix, trim_space, cut_at, or_whole, update}
use vxapigateway.Host.{split_host}

-- `headers` is Header.Get, on canonical names; a header that is not set is the empty text.
pub record Request : Type 0 where
  pub method : Bytes
  pub host : Bytes
  pub path : Bytes
  pub remote_addr : Bytes
  pub headers : Bytes → Bytes

abbrev pub real_ip : Bytes
real_ip = codes "X-Real-Ip"

abbrev pub forwarded_for : Bytes
forwarded_for = codes "X-Forwarded-For"

abbrev pub set_header : Bytes → Bytes → Request → Request
set_header name value r = record r { headers = update r.headers name value }

-- `strings.Split(s, ",")[0]`
abbrev pub before_comma : Bytes → Bytes
before_comma s = elim (cut_at b',' s) [ none ↦ s | some (first, rest) ↦ first ]

unfoldable pub get_client_ip : Request → Bytes
get_client_ip r =
    if beq (r.headers real_ip) []
    then if beq (r.headers forwarded_for) []
      then or_whole r.remote_addr (split_host r.remote_addr)
      else trim_space (before_comma (r.headers forwarded_for))
    else r.headers real_ip

abbrev pub public_paths : List Bytes
public_paths =
    codes "/health"
    ∷ codes "/metrics"
    ∷ codes "/login"
    ∷ codes "/register"
    ∷ codes "/api/v1/public"
    ∷ []

unfoldable pub has_any_prefix : Bytes → List Bytes → Bool
has_any_prefix path [] = false
has_any_prefix path (p ∷ prefixes) = has_prefix path p || has_any_prefix path prefixes

unfoldable pub is_public_endpoint : Bytes → Bool
unfolding has_any_prefix
is_public_endpoint path = has_any_prefix path public_paths
