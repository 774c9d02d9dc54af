-- ===== src/Router.antt =====
-- The ServiceRouter of routing.go: the routing table, `AddRoute` and `Route`. A *ServicePool is its
-- position among the pools that the router has made, so that routes share pools by reference.
pub mod Order
pub mod Lookup
pub mod Invariant
mod Tests
use vxapigateway.Prelude.{
  ℕ, ◌≡◌, Bool, true, false, ◌&&◌, ◌||◌, not, List, [], ◌∷◌, ◌++◌, Option, none, some, length, ltb,
  ◌==◌, if◌then◌else◌, map,
}
use vxapigateway.Prelude.Bytes.{Bytes, codes, beq, trim_prefix}
use vxapigateway.Prelude.Word.{slt, mul64}
use vxapigateway.Backend.{Url, Network}
use vxapigateway.Pool.{ServicePool, new_service_pool, health_check}
use vxapigateway.Host.{host_specificity, normalize_host, host_matches, path_matches}
use vxapigateway.Upstream.{ServiceRoute, merged_targets, add_upstreams}

pub record RouteEntry : Type 0 where
  pub name : Bytes
  pub host : Bytes
  pub prefix : Bytes
  pub pool : ℕ
  pub strip_prefix : Bool
  pub require_auth : Bool
  pub timeout : ℕ

pub record MatchedRoute : Type 0 where
  pub name : Bytes
  pub pool : ℕ
  pub backend_path : Bytes
  pub require_auth : Bool
  pub timeout : ℕ

pub record ServiceRouter : Type 0 where
  pub routes : List RouteEntry
  pub pools : List ServicePool

unfoldable pub new_service_router : ServiceRouter
new_service_router = record { routes = []; pools = [] }

-- The function given to sort.SliceStable: whether one entry is more specific than another.
unfoldable pub more_specific : RouteEntry → RouteEntry → Bool
more_specific a b =
    let sa = host_specificity a.host in
    let sb = host_specificity b.host in
    if not (sa == sb)
    then ltb sb sa
    else if not (length a.host == length b.host)
    then ltb (length b.host) (length a.host)
    else ltb (length b.prefix) (length a.prefix)

-- sort.SliceStable, as an insertion sort: of a stable sort only the result matters.
unfoldable pub insert_entry : RouteEntry → List RouteEntry → List RouteEntry
insert_entry e [] = e ∷ []
insert_entry e (x ∷ xs) = if more_specific x e then x ∷ insert_entry e xs else e ∷ x ∷ xs

unfoldable pub sort_stable : List RouteEntry → List RouteEntry
unfolding insert_entry
sort_stable [] = []
sort_stable (e ∷ es) = insert_entry e (sort_stable es)

-- One hour, in nanoseconds.
abbrev pub hour : ℕ
hour = 3_600_000_000_000

-- `cfg.TimeoutSecs` in nanoseconds, or an hour if that is not positive.
unfoldable pub route_timeout : ℕ → ℕ
route_timeout secs =
    let timeout = mul64 secs 1_000_000_000 in if slt 0 timeout then timeout else hour

unfoldable pub or_root : Bytes → Bytes
or_root prefix = if beq prefix [] then codes "/" else prefix

abbrev pub entry_of : ServiceRoute → ℕ → RouteEntry
entry_of cfg pool = record {
  name = cfg.name;
  host = normalize_host cfg.host;
  prefix = or_root cfg.prefix;
  pool = pool;
  strip_prefix = cfg.strip_prefix;
  require_auth = cfg.require_auth;
  timeout = route_timeout cfg.timeout_secs;
}

unfoldable pub add_route :
    (Bytes → Option Url) → ServiceRoute → Bytes → ServiceRouter → ServiceRouter
add_route parse cfg algo sr =
    let pool = add_upstreams parse cfg (merged_targets cfg) 0 [] (new_service_pool algo) in
    if length pool.backends == 0 then sr else record {
      routes = sort_stable (sr.routes ++ entry_of cfg (length sr.pools) ∷ []);
      pools = sr.pools ++ pool ∷ [];
    }

abbrev pub starts_with_slash : Bytes → Bool
starts_with_slash [] = false
starts_with_slash (c ∷ s) = c == b'/'

-- The path that the upstream is asked for.
unfoldable pub backend_path : RouteEntry → Bytes → Bytes
unfolding trim_prefix beq
backend_path entry path =
    if entry.strip_prefix && not (beq entry.prefix (codes "/"))
    then (let stripped = trim_prefix path entry.prefix in
        if starts_with_slash stripped then stripped else codes "/" ++ stripped)
    else path

abbrev pub matched : RouteEntry → Bytes → MatchedRoute
matched entry path = record {
  name = entry.name;
  pool = entry.pool;
  backend_path = backend_path entry path;
  require_auth = entry.require_auth;
  timeout = entry.timeout;
}

-- The loop of `Route`, for a reduced host.
unfoldable pub route_loop : List RouteEntry → Bytes → Bytes → Option MatchedRoute
route_loop [] host path = none
route_loop (entry ∷ entries) host path =
    if host_matches entry.host host && path_matches entry.prefix path
    then some (matched entry path)
    else route_loop entries host path

unfoldable pub route : ServiceRouter → Bytes → Bytes → Option MatchedRoute
unfolding route_loop
route sr host path = route_loop sr.routes (normalize_host host) path

-- Health checks every pool; `Routes` is the field `routes`.
unfoldable pub health_check_all : Network → ServiceRouter → ServiceRouter
health_check_all net sr = record sr { pools = map (health_check net) sr.pools }
