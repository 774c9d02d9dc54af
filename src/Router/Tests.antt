-- ===== src/Router/Tests.antt =====
-- The theorems about the router at a concrete table.
use mathlib.Core.List.{Perm}
use vxapigateway.Prelude.{
  ℕ, ◌<◌, ◌≡◌, ◌↔◌, refl, true, false, ◌++◌, [], ◌∷◌, All, Option, none, some, get_elem?, length,
  arith,
}
use vxapigateway.Prelude.Bytes.{Bytes, codes, strip?, trim_space, trim_suffix}
use vxapigateway.Backend.{Url, Network}
use vxapigateway.Host.{normalize_host, split_host, host_matches, path_matches}
use vxapigateway.Upstream.{ServiceRoute}
use vxapigateway.Router.{
  RouteEntry, MatchedRoute, ServiceRouter, matched, backend_path, route, add_route, entry_of,
  new_service_router,
}
use vxapigateway.Router.Order.{Outranks, IsRanked, class}
use vxapigateway.Router.Lookup.{CoversRequest, IsFirst, route-most_specific, route-none_iff}
use vxapigateway.Router.Invariant.{
  IsWellFormed, made, new_service_router-IsWellFormed, add_route-IsWellFormed, add_route_lem,
}

abbrev api : RouteEntry
api = record {
  name = codes "api";
  host = codes "a.b";
  prefix = codes "/api";
  pool = 0;
  strip_prefix = true;
  require_auth = false;
  timeout = 1000;
}

abbrev fallback : RouteEntry
fallback = record {
  name = codes "rest";
  host = [];
  prefix = codes "/";
  pool = 1;
  strip_prefix = false;
  require_auth = true;
  timeout = 1000;
}

abbrev table : ServiceRouter
table = record { routes = api ∷ fallback ∷ []; pools = [] }

table-IsRanked : IsRanked (api ∷ fallback ∷ [])
table-IsRanked = ((λ o. omega (arith, o), tt), (tt, tt))

abbrev found : MatchedRoute
found = record {
  name = codes "api";
  pool = 0;
  backend_path = codes "/v1";
  require_auth = false;
  timeout = 1000;
}

route-most_specific_example :
    (e : RouteEntry) × (i : ℕ) × (found ≡ matched e (codes "/api/v1"))
    × IsFirst table.routes (normalize_host (codes "A.b:80")) (codes "/api/v1") e i
    × ((j : ℕ) (f : RouteEntry)
        → get_elem? table.routes j ≡ some f
        → CoversRequest (normalize_host (codes "A.b:80")) (codes "/api/v1") f
        → ¬ Outranks f e)
unfolding route host_matches normalize_host trim_space split_host trim_suffix path_matches
    backend_path
route-most_specific_example =
    route-most_specific table (codes "A.b:80") (codes "/api/v1") found table-IsRanked refl

route-none_iff_example :
    (route table (codes "c") (codes "/") ≡ none)
    ↔ All (λ e. ¬ CoversRequest (normalize_host (codes "c")) (codes "/") e) table.routes
route-none_iff_example = route-none_iff table (codes "c") (codes "/")

abbrev http_url : Option Bytes → Option Url
http_url none = none
http_url (some host) = some (record {
  text = codes "http://" ++ host;
  scheme = codes "http";
  host = host;
  hostname = host;
  port = [];
  path = [];
  raw_query = [];
})

-- Every text that begins with "http://" is the URL of the host behind it.
abbrev parse : Bytes → Option Url
parse s = http_url (strip? (codes "http://") s)

abbrev config : ServiceRoute
config = record {
  host = codes "a.b";
  prefix = [];
  target_url = codes "a";
  targets = codes "b" ∷ [];
  strip_prefix = true;
  require_auth = false;
  weight = 2;
  weights = [];
  timeout_secs = 5;
  health_path = [];
  preserve_host = false;
  name = codes "api";
}

abbrev algo : Bytes
algo = codes "round-robin"

add_route-IsWellFormed_example : IsWellFormed (add_route parse config algo new_service_router)
add_route-IsWellFormed_example =
    add_route-IsWellFormed parse config algo new_service_router new_service_router-IsWellFormed

add_route_lem_example :
    ((made parse config algo).backends ≡ [] → add_route parse config algo table ≡ table)
    × (0 < length (made parse config algo).backends
        → Perm (add_route parse config algo table).routes (entry_of config 0 ∷ table.routes)
          × IsRanked (add_route parse config algo table).routes
          × ((c : RouteEntry)
              → class c (add_route parse config algo table).routes
                ≡ class c (table.routes ++ entry_of config 0 ∷ []))
          × ((add_route parse config algo table).pools ≡ made parse config algo ∷ []))
add_route_lem_example = add_route_lem parse config algo table

abbrev silent : Network
silent = record { dial = λ address. false; get = λ u. none }
