-- ===== src/Server/Effect.antt =====
-- What one request to the server does to the gateway: `ServeHTTP`, or an entry on one of the lists of
-- the DDoS protection.
use vxapigateway.Prelude.{
  inl, inr, true, false, not, List, [], ◌∷◌, Option, none, some, Bool, Bool-cases, if◌then◌else◌,
}
use vxapigateway.Prelude.Bytes.{Bytes, codes, beq, update}
use vxapigateway.Ddos.{Operation, whitelists, blacklists, step, run}
use vxapigateway.Client.{Request, set_header}
use vxapigateway.Gateway.{Services, Gateway}
use vxapigateway.Gateway.Serve.{serve_http}
use vxapigateway.Server.Handlers.{Response, whitelist_handler, blacklist_handler}
use vxapigateway.Server.{
  Endpoint, metrics_endpoint, health_endpoint, stats_endpoint, whitelist_endpoint,
  blacklist_endpoint, login_endpoint, monitor_endpoint, catch_all, endpoints, request_id, Visit,
  Handler, Headers, Served, handle_found, serve_mux, request_id_middleware, serve, security_headers,
  set_all, generate_request_id,
}

module _ (services : Services) (v : Visit) where
  pub data Effect (g : Gateway services) : Gateway services → Type 0 where
    through : (r : Request) → Effect g (serve_http services v.surroundings r g).0
    listed : (operations : List Operation) → Effect g (record g { ddos = run operations g.ddos })

  if-Effect :
      (g : Gateway services) (b : Bool) (x y : Response × Gateway services)
      → Effect g x.1
      → Effect g y.1
      → Effect g (if b then x else y).1
  if-Effect g true x y h k = h
  if-Effect g false x y h k = k

  untouched : (g : Gateway services) → Effect g g
  unfolding run
  untouched g = listed []

  whitelist_handler-Effect :
      (r : Request) (ip : Bytes) (g : Gateway services)
      → Effect g (whitelist_handler services r ip g).1
  unfolding whitelist_handler run step
  whitelist_handler-Effect r ip g =
      if-Effect g (not (beq r.method (codes "POST"))) _ _ (untouched g)
        (if-Effect g (beq ip []) _ _ (untouched g) (listed (whitelists ip ∷ [])))

  blacklist_handler-Effect :
      (r : Request) (ip : Bytes) (g : Gateway services)
      → Effect g (blacklist_handler services r ip g).1
  unfolding blacklist_handler run step
  blacklist_handler-Effect r ip g =
      if-Effect g (not (beq r.method (codes "POST"))) _ _ (untouched g)
        (if-Effect g (beq ip []) _ _ (untouched g) (listed (blacklists ip ∷ [])))

  handle-Effect :
      (e : Option Endpoint) (r : Request) (g : Gateway services)
      → Effect g (handle_found services v e r g).0
  handle-Effect none r g = untouched g
  handle-Effect (some metrics_endpoint) r g = untouched g
  handle-Effect (some health_endpoint) r g = untouched g
  handle-Effect (some stats_endpoint) r g = untouched g
  handle-Effect (some whitelist_endpoint) r g = whitelist_handler-Effect r (v.query (codes "ip")) g
  handle-Effect (some blacklist_endpoint) r g = blacklist_handler-Effect r (v.query (codes "ip")) g
  handle-Effect (some login_endpoint) r g = untouched g
  handle-Effect (some monitor_endpoint) r g = untouched g
  handle-Effect (some catch_all) r g = through r

  serve_mux-Effect :
      (g : Gateway services) (r : Request) (h : Headers)
      → Effect g (serve_mux services v g r h).gateway
  unfolding serve_mux
  serve_mux-Effect g r h = handle-Effect (v.mux endpoints r) r g

  -- The middlewares hand the request on once.
  request_id_middleware-keeps :
      (P : Served services → Type 0) (fresh : Bytes) (next : Handler (Served services))
      (r : Request) (h : Headers)
      → ((q : Request) (k : Headers) → P (next q k))
      → P (request_id_middleware fresh next r h)
  unfolding request_id_middleware
  request_id_middleware-keeps P fresh next r h all =
      elim (Bool-cases (beq (r.headers request_id) [])) [
        | inl e ↦
            rw (e, request_id_middleware)
              (all (set_header request_id fresh r) (update h request_id fresh))
        | inr e ↦ rw (e, request_id_middleware) (all r (update h request_id (r.headers request_id)))
      ]

  pub serve-Effect : (r : Request) (g : Gateway services) → Effect g (serve services v r g).gateway
  unfolding serve
  serve-Effect r g =
      request_id_middleware-keeps (λ out. Effect g out.gateway)
        (generate_request_id v.hex v.random v.unix_nano) (serve_mux services v g) r
        (set_all security_headers (λ name. [])) (serve_mux-Effect g)
