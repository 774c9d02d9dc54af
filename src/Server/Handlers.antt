-- ===== src/Server/Handlers.antt =====
-- The handlers of handlers.go. They write JSON: a document is the value that the encoder is given, in
-- which an empty list is a nil slice.
use vxapigateway.Prelude.{
  ℕ, Bool, List, [], ◌∷◌, ◌++◌, none, some, get_elem?, length, map, not, if◌then◌else◌,
}
use vxapigateway.Prelude.Bytes.{Bytes, codes, beq}
use vxapigateway.Backend.{Backend}
use vxapigateway.Breaker.{State, closed, open_, half_open, CircuitBreaker}
use vxapigateway.Ddos.{DdosProtection, add_to_whitelist, add_to_blacklist}
use vxapigateway.Router.{RouteEntry, ServiceRouter}
use vxapigateway.Client.{Request}
use vxapigateway.Gateway.{Services, Gateway}

-- `connections` and `weight` are 64-bit patterns.
pub record BackendInfo : Type 0 where
  pub url : Bytes
  pub alive : Bool
  pub connections : ℕ
  pub weight : ℕ

pub record RouteInfo : Type 0 where
  pub prefix : Bytes
  pub require_auth : Bool
  pub strip_prefix : Bool
  pub backends : List BackendInfo

pub record Health : Type 0 where
  pub status : Bytes
  pub timestamp : Bytes
  pub version : Bytes
  pub circuit_breaker : Bytes
  pub routes : List RouteInfo
  pub backends : List BackendInfo

pub record Stats : Type 0 where
  pub circuit_breaker_state : Bytes
  pub load_balancing_algo : Bytes
  pub caching_enabled : Bool
  pub compression_enabled : Bool
  pub routes_count : ℕ

-- The last one is the object with the keys `status` and `ip`.
pub data Document : Type 0 where
  health_document : Health → Document
  stats_document : Stats → Document
  listed_document : Bytes → Bytes → Document

-- What a handler answers: http.Error, or a body of the type application/json, under a status.
pub data Response : Type 0 where
  error_response : ℕ → Bytes → Response
  json_response : ℕ → Document → Response
  text_response : ℕ → Bytes → Response

abbrev state_text : State → Bytes
state_text closed = codes "closed"
state_text open_ = codes "open"
state_text half_open = codes "half-open"

unfoldable pub get_state : CircuitBreaker → Bytes
get_state cb = state_text cb.state

abbrev backend_info : Backend → BackendInfo
backend_info b = record {
  url = b.url.text;
  alive = b.alive;
  connections = b.connections;
  weight = b.weight;
}

-- `entry.Pool.Backends()`
abbrev pub pool_backends : ServiceRouter → RouteEntry → List Backend
pool_backends sr entry = elim (get_elem? sr.pools entry.pool) [ none ↦ [] | some p ↦ p.backends ]

abbrev route_info : ServiceRouter → RouteEntry → RouteInfo
route_info sr entry = record {
  prefix = entry.prefix;
  require_auth = entry.require_auth;
  strip_prefix = entry.strip_prefix;
  backends = map backend_info (pool_backends sr entry);
}

-- The loops that fill `allBackends`.
unfoldable all_backends : ServiceRouter → List RouteEntry → List BackendInfo
all_backends sr [] = []
all_backends sr (entry ∷ entries) =
    map backend_info (pool_backends sr entry) ++ all_backends sr entries

module _ (services : Services) where
  unfoldable pub health_handler : Bytes → Gateway services → Response
  unfolding get_state all_backends
  health_handler timestamp g = json_response 200 (
      health_document (record {
        status = codes "healthy";
        timestamp = timestamp;
        version = codes "2.0.0";
        circuit_breaker = get_state g.breaker;
        routes = map (route_info g.router) g.router.routes;
        backends = all_backends g.router g.router.routes;
      }))

  unfoldable pub stats_handler : Gateway services → Response
  unfolding get_state
  stats_handler g = json_response 200 (
      stats_document (record {
        circuit_breaker_state = get_state g.breaker;
        load_balancing_algo = g.config.load_balancing_algo;
        caching_enabled = g.config.enable_caching;
        compression_enabled = g.config.enable_compression;
        routes_count = length g.router.routes;
      }))

  abbrev set_ddos : DdosProtection → Gateway services → Gateway services
  set_ddos d g = record g { ddos = d }

  -- `ip` is `r.URL.Query().Get("ip")`.
  unfoldable pub whitelist_handler :
      Request → Bytes → Gateway services → Response × Gateway services
  unfolding add_to_whitelist
  whitelist_handler r ip g =
      if not (beq r.method (codes "POST"))
      then (error_response 405 (codes "Method not allowed"), g)
      else if beq ip []
      then (error_response 400 (codes "IP parameter required"), g)
      else (
        json_response 200 (listed_document (codes "whitelisted") ip),
        set_ddos (add_to_whitelist ip g.ddos) g,
      )

  unfoldable pub blacklist_handler :
      Request → Bytes → Gateway services → Response × Gateway services
  unfolding add_to_blacklist
  blacklist_handler r ip g =
      if not (beq r.method (codes "POST"))
      then (error_response 405 (codes "Method not allowed"), g)
      else if beq ip []
      then (error_response 400 (codes "IP parameter required"), g)
      else (
        json_response 200 (listed_document (codes "blacklisted") ip),
        set_ddos (add_to_blacklist ip g.ddos) g,
      )
