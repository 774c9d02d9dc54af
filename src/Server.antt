-- ===== src/Server.antt =====
-- The server that main.go starts: `NewGateway`, the middlewares, the mux with its handlers, and the
-- work that goroutines do beside the requests. Package net/http and its mux are parameters.
pub mod Handlers
pub mod Steps
pub mod Start
pub mod Effect
pub mod Invariant
pub mod Headers
pub mod Whitelist
mod Tests
use vxapigateway.Prelude.{ℕ, Bool, List, [], ◌∷◌, Option, none, some, if◌then◌else◌}
use vxapigateway.Prelude.Bytes.{Bytes, codes, beq, update}
use vxapigateway.Backend.{Url}
use vxapigateway.Breaker.{new_circuit_breaker}
use vxapigateway.Ddos.{new_ddos_protection}
use vxapigateway.Limiter.{new_ip_rate_limiter}
use vxapigateway.Upstream.{ServiceRoute}
use vxapigateway.Router.{ServiceRouter, new_service_router, add_route}
use vxapigateway.Client.{Request, set_header}
use vxapigateway.Cache.{new_cache_manager}
use vxapigateway.Config.{Config}
use vxapigateway.Gateway.{Services, Surroundings, Gateway, Reply}
use vxapigateway.Gateway.Serve.{serve_http}
use vxapigateway.Server.Handlers.{
  Response, text_response, health_handler, stats_handler, whitelist_handler, blacklist_handler,
}

-- url.Parse, and whether Redis answers.
pub record Environment : Type 0 where
  pub parse : Bytes → Option Url
  pub ping : Bytes → Bool

-- The loop over `cfg.ServiceRoutes`.
unfoldable pub register_routes :
    (Bytes → Option Url) → List ServiceRoute → Bytes → ServiceRouter → ServiceRouter
unfolding add_route
register_routes parse [] algo sr = sr
register_routes parse (route ∷ routes) algo sr =
    register_routes parse routes algo (add_route parse route algo sr)

module _ (services : Services) where
  unfoldable pub new_gateway : Environment → Config → Gateway services
  unfolding register_routes new_service_router new_ip_rate_limiter new_ddos_protection
      new_circuit_breaker new_cache_manager
  new_gateway env cfg = record {
    router =
        register_routes env.parse cfg.service_routes cfg.load_balancing_algo new_service_router;
    rate_limiter =
        new_ip_rate_limiter services.limiters cfg.max_requests_per_second cfg.max_burst_size;
    ddos = new_ddos_protection cfg.ddos_threshold cfg.block_duration;
    breaker = new_circuit_breaker cfg.circuit_breaker_max cfg.circuit_breaker_timeout;
    cache = new_cache_manager env.ping cfg.redis_addr cfg.cache_ttl cfg.enable_caching;
    config = cfg;
    metrics = record { requests_total = []; cache_hits = 0; active_conns = 0 };
  }

-- The headers of the response that are set so far; the empty text is a header that is not set.
abbrev pub Headers : Type 0
Headers = Bytes → Bytes

-- A handler, of any result, behind headers of the response.
abbrev pub Handler : Type 0 → Type 0
Handler A = Request → Headers → A

abbrev pub request_id : Bytes
request_id = codes "X-Request-Id"

abbrev pub security_headers : List (Bytes × Bytes)
security_headers =
    (codes "X-Content-Type-Options", codes "nosniff")
    ∷ (codes "X-Frame-Options", codes "DENY")
    ∷ (codes "Strict-Transport-Security", codes "max-age=63072000; includeSubDomains")
    ∷ (codes "Content-Security-Policy", codes "default-src 'self'")
    ∷ (codes "X-Xss-Protection", codes "1; mode=block")
    ∷ (codes "Referrer-Policy", codes "strict-origin-when-cross-origin")
    ∷ []

unfoldable pub set_all : List (Bytes × Bytes) → Headers → Headers
unfolding beq
set_all [] h = h
set_all (entry ∷ entries) h = set_all entries (update h entry.0 entry.1)

module _ {A : Type 0} where
  unfoldable pub security_headers_middleware : Handler A → Handler A
  unfolding set_all
  security_headers_middleware next r h = next r (set_all security_headers h)

  -- `fresh` is the result of `generateRequestID`.
  unfoldable pub request_id_middleware : Bytes → Handler A → Handler A
  unfolding beq
  request_id_middleware fresh next r h =
      if beq (r.headers request_id) []
      then next (set_header request_id fresh r) (update h request_id fresh)
      else next r (update h request_id (r.headers request_id))

-- Package hex, what rand.Read fills the buffer with, or `none` after an error, and the time in
-- nanoseconds, printed.
unfoldable pub generate_request_id : (Bytes → Bytes) → Option Bytes → Bytes → Bytes
generate_request_id hex random unix_nano = elim random [ none ↦ unix_nano | some b ↦ hex b ]

-- What the mux dispatches to.
pub data Endpoint : Type 0 where
  metrics_endpoint health_endpoint stats_endpoint : Endpoint
  whitelist_endpoint blacklist_endpoint login_endpoint monitor_endpoint catch_all : Endpoint

-- The patterns that `main` registers.
abbrev pub endpoints : List (Bytes × Endpoint)
endpoints =
    (codes "/metrics", metrics_endpoint)
    ∷ (codes "/health", health_endpoint)
    ∷ (codes "/stats", stats_endpoint)
    ∷ (codes "/admin/whitelist", whitelist_endpoint)
    ∷ (codes "/admin/blacklist", blacklist_endpoint)
    ∷ (codes "/login", login_endpoint)
    ∷ (codes "/monitor", monitor_endpoint)
    ∷ (codes "/api/system-metrics", monitor_endpoint)
    ∷ (codes "/", catch_all)
    ∷ []

-- What one request to the server meets: beside the surroundings of `ServeHTTP`, the endpoint that the
-- mux of package net/http chooses for a request, `none` for an answer of its own such as a redirect,
-- the parameters of the URL's query, the random bytes, and the times, printed.
pub record Visit : Type 0 where
  pub surroundings : Surroundings
  pub mux : List (Bytes × Endpoint) → Request → Option Endpoint
  pub query : Bytes → Bytes
  pub hex : Bytes → Bytes
  pub random : Option Bytes
  pub unix_nano : Bytes
  pub timestamp : Bytes

-- An answer of the gateway, of a handler, or of code from elsewhere, such as the metrics page.
pub data Answer : Type 0 where
  proxied : Reply → Answer
  handled : Response → Answer
  elsewhere : Answer

-- The headers are those that the middlewares have set on the response.
pub record Served (services : Services) : Type 0 where
  pub gateway : Gateway services
  pub request : Request
  pub headers : Headers
  pub answer : Answer

module _ (services : Services) (v : Visit) where
  abbrev pub handle : Endpoint → Request → Gateway services → Gateway services × Answer
  handle metrics_endpoint r g = (g, elsewhere)
  handle health_endpoint r g = (g, handled (health_handler services v.timestamp g))
  handle stats_endpoint r g = (g, handled (stats_handler services g))
  handle whitelist_endpoint r g =
      let out = whitelist_handler services r (v.query (codes "ip")) g in (out.1, handled out.0)
  handle blacklist_endpoint r g =
      let out = blacklist_handler services r (v.query (codes "ip")) g in (out.1, handled out.0)
  handle login_endpoint r g = (
    g,
    handled
        (text_response 200 (codes "{\"message\":\"login endpoint - implement OAuth2/OIDC flow\"}")),
  )
  handle monitor_endpoint r g = (g, elsewhere)
  handle catch_all r g = let out = serve_http services v.surroundings r g in (out.0, proxied out.1)

  abbrev pub handle_found : Option Endpoint → Request → Gateway services → Gateway services × Answer
  handle_found none r g = (g, elsewhere)
  handle_found (some endpoint) r g = handle endpoint r g

  unfoldable pub serve_mux : Gateway services → Handler (Served services)
  unfolding serve_http health_handler stats_handler whitelist_handler blacklist_handler
  serve_mux g r h =
      let out = handle_found (v.mux endpoints r) r g in
      record { gateway = out.0; request = r; headers = h; answer = out.1 }

  -- The handler of the server, with the chain of middlewares.
  unfoldable pub serve : Request → Gateway services → Served services
  unfolding security_headers_middleware request_id_middleware generate_request_id serve_mux
  serve r g =
      let fresh = generate_request_id v.hex v.random v.unix_nano in
      security_headers_middleware (request_id_middleware fresh (serve_mux g)) r (λ name. [])
