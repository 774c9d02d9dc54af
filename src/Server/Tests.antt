-- ===== src/Server/Tests.antt =====
-- The theorems about the server at a concrete configuration.
use vxapigateway.Prelude.{
  ℕ, ◌+◌, ◌*◌, ◌-◌, ◌<◌, ◌≡◌, ◌≢◌, refl, true, false, List, [], ◌∷◌, Option, none, some, length,
  All, arith, ltb, ◌==◌, if◌then◌else◌,
}
use vxapigateway.Prelude.Bytes.{
  Bytes, codes, beq, trim_space, trim, trim_right, drop_while, contains, has_prefix, strip?,
}
use vxapigateway.Prelude.Word.{half_modulus}
use vxapigateway.Pool.{new_service_pool, add_backend}
use vxapigateway.Upstream.{ServiceRoute, merged_targets, normalize_upstream, add_upstreams}
use vxapigateway.Router.{new_service_router, add_route}
use vxapigateway.Ddos.{cleanup}
use vxapigateway.Host.{split_host}
use vxapigateway.Client.{Request, get_client_ip}
use vxapigateway.Config.{Config}
use vxapigateway.Gateway.{Services, Surroundings, Gateway, counted}
use vxapigateway.Gateway.Serve.{serve_http, limit_rate}
use vxapigateway.Server.{
  Environment, Visit, Endpoint, endpoints, whitelist_endpoint, catch_all, register_routes,
  new_gateway, serve, serve_mux, security_headers_middleware, request_id_middleware,
}
use vxapigateway.Server.Steps.{Steps, here, visited, cleaned}
use vxapigateway.Server.Invariant.{IsHealthy, reached-IsHealthy, reached-counts}
use vxapigateway.Server.Headers.{IsDressed, serve-IsDressed}
use vxapigateway.Server.Whitelist.{whitelist_handler-exempts}

abbrev services : Services
services = record {
  limiters = record {
    Limiter = ℕ;
    create = λ limit burst. burst;
    allow = λ now n. (ltb 0 n, n - 1);
    is_full = λ now burst n. n == burst;
  };
  jwt = record {
    Token = Bytes;
    Claims = Bytes;
    parse = λ key text. none;
    is_hmac = λ token. true;
    map_claims = λ token. some token;
    is_valid = λ token. true;
    exp = λ claims. none;
    sub = λ claims. none;
  };
  first_byte = λ s. 0;
  hash = λ s. s;
}

abbrev environment : Environment
environment = record {
  parse = λ s. some (record {
    text = s;
    scheme = codes "http";
    host = codes "a";
    hostname = codes "a";
    port = [];
    path = [];
    raw_query = [];
  });
  ping = λ addr. false;
}

abbrev service_route : ServiceRoute
service_route = record {
  host = [];
  prefix = codes "/";
  target_url = codes "http://a";
  targets = [];
  strip_prefix = false;
  require_auth = false;
  weight = 1;
  weights = [];
  timeout_secs = 30;
  health_path = [];
  preserve_host = false;
  name = codes "all";
}

abbrev config : Config
config = record {
  port = codes ":9777";
  max_requests_per_second = 10;
  max_burst_size = 20;
  ddos_threshold = 100;
  block_duration = 1000;
  jwt_secret = codes "s";
  health_check_interval = 10;
  connection_timeout = 30;
  max_idle_conns = 5;
  idle_conn_timeout = 90;
  circuit_breaker_max = 5;
  circuit_breaker_timeout = 100;
  enable_compression = false;
  enable_caching = false;
  cache_ttl = 60;
  redis_addr = [];
  load_balancing_algo = codes "round-robin";
  service_routes = service_route ∷ [];
  cors_allowed_origins = [];
}

-- A backend that resets each connection.
abbrev surroundings : Surroundings
surroundings = record {
  checked = 1;
  recorded = 2;
  allowed = 3;
  unix_time = 4;
  stored = λ key. none;
  writer = record { is_flusher = true; is_hijacker = false; accept = λ sent b. (3, false) };
  attempts = λ n. record {
    now = 60;
    later = 70;
    noted = 70;
    gateway_time = codes "t";
    serve = λ pool i timeout r. ([], some (codes "EOF"));
  };
}

-- A mux that looks at the path only.
abbrev find : Bytes → List (Bytes × Endpoint) → Option Endpoint
unfolding beq
find path [] = some catch_all
find path (entry ∷ entries) = if beq entry.0 path then some entry.1 else find path entries

abbrev visit : Visit
unfolding beq
visit = record {
  surroundings = surroundings;
  mux = λ entries r. find r.path entries;
  query = λ name. codes "10.0.0.7";
  hex = λ s. s;
  random = none;
  unix_nano = codes "17";
  timestamp = codes "now";
}

abbrev request : Bytes → Bytes → Request
request method path = record {
  method = method;
  host = codes "a.b";
  path = path;
  remote_addr = codes "10.0.0.7";
  headers = λ name. [];
}

abbrev first : Gateway services
first = new_gateway services environment config

-- After one request and a round of the clean-up.
abbrev second : Gateway services
second = record (serve services visit (request (codes "GET") (codes "/x")) first).gateway {
  ddos = cleanup 5 (serve services visit (request (codes "GET") (codes "/x")) first).gateway.ddos;
}

steps : Steps services first 1 second
steps = cleaned 5 (visited visit (request (codes "GET") (codes "/x")) here)

room :
    (k : ℕ)
    → k < 100
    → All (λ p. length p.backends + (4 * 1 + k) + 1 < half_modulus) first.router.pools
unfolding new_gateway register_routes new_service_router add_route add_upstreams merged_targets
    normalize_upstream trim_space trim trim_right drop_while contains has_prefix strip? beq
    add_backend new_service_pool
room k h = (omega arith, tt)

reached-IsHealthy_example : IsHealthy services 6 second
reached-IsHealthy_example =
    reached-IsHealthy services environment config (omega arith) (omega arith) 1 6 second
      (room 6 (omega arith)) steps

reached-counts_example :
    (status : ℕ) × ((serve_http services surroundings
        (request (codes "GET") (codes "/y"))
        second).1.ending
      ≡ counted status)
reached-counts_example =
    reached-counts services environment config (omega arith) (omega arith) 1 second
      (room 4 (omega arith)) steps surroundings (request (codes "GET") (codes "/y"))

serve-IsDressed_example :
    IsDressed services visit
      (request (codes "GET") (codes "/x"))
      first
      (serve services visit (request (codes "GET") (codes "/x")) first)
serve-IsDressed_example = serve-IsDressed services visit (request (codes "GET") (codes "/x")) first

abbrev admin : Request
admin = request (codes "POST") (codes "/admin/whitelist")

chosen : visit.mux endpoints (serve services visit admin first).request ≡ some whitelist_endpoint
unfolding serve security_headers_middleware request_id_middleware serve_mux beq
chosen = refl

named : codes "10.0.0.7" ≢ []
named = λ e. absurd (cc e)

whitelist_handler-exempts_example :
    let h = (serve services visit admin first).gateway in
    let q = request (codes "GET") (codes "/y") in
    serve_http services surroundings q h ≡ limit_rate services surroundings (get_client_ip q) q h
unfolding get_client_ip beq split_host
whitelist_handler-exempts_example =
    whitelist_handler-exempts services visit admin first (serve services visit admin first).gateway
      0 chosen refl named here surroundings (request (codes "GET") (codes "/y")) refl
