-- ===== src/Server/Whitelist.antt =====
-- The permanent lists of the DDoS protection, as seen from the server.
use vxapigateway.Prelude.{
  ℕ, ◌≡◌, ◌≢◌, refl, sym, ap, ◌∙◌, subst, inl, inr, true, false, ◌&&◌, not, [], ◌∷◌, Option, none,
  some, arith, Bool, Bool-cases, Option-cases, if◌then◌else◌,
}
use vxapigateway.Prelude.Bytes.{Bytes, codes, beq}
use vxapigateway.Prelude.BytesLaws.{beq_refl, beq_iff}
use vxapigateway.Pool.{Pick, panics, nil, picked}
use vxapigateway.Ddos.{
  DdosProtection, checks, records, add_to_whitelist, cleanup, is_blocked, record_request, step, run,
}
use vxapigateway.Ddos.Lists.{run-whitelist}
use vxapigateway.Limiter.{allow_ip}
use vxapigateway.Auth.{authenticate}
use vxapigateway.Router.{MatchedRoute, route}
use vxapigateway.Client.{Request, get_client_ip, is_public_endpoint}
use vxapigateway.Cache.{cache_get, generate_key}
use vxapigateway.Gateway.{Services, Surroundings, Gateway, Reply}
use vxapigateway.Gateway.Exchange.{pool_peer}
use vxapigateway.Gateway.Serve.{
  finish, run_attempts, dispatch, select_backend, from_cache, authorize, find_route, limit_rate,
  serve_http,
}
use vxapigateway.Server.{Visit, serve, endpoints, whitelist_endpoint, handle_found}
use vxapigateway.Server.Handlers.{whitelist_handler}
use vxapigateway.Server.Headers.{serve-IsDressed}
use vxapigateway.Server.Steps.{Steps, here, visited, checked, cleaned, evicted}
use vxapigateway.Server.Effect.{Effect, through, listed, serve-Effect}

module _ (services : Services) (s : Surroundings) where
  -- The stages behind the DDoS checks leave the protection as it is.
  dispatch-ddos :
      (pick : Pick) (m : MatchedRoute) (ip : Bytes) (c : Option Bytes) (r : Request)
      (g : Gateway services)
      → (dispatch services s pick m ip c r g).0.ddos ≡ g.ddos
  unfolding dispatch run_attempts finish
  dispatch-ddos panics m ip c r g = refl
  dispatch-ddos nil m ip c r g = refl
  dispatch-ddos (picked i) m ip c r g = refl

  from_cache-ddos :
      (m : MatchedRoute) (ip : Bytes) (r : Request) (g : Gateway services)
      → (from_cache services s m ip r g).0.ddos ≡ g.ddos
  unfolding from_cache select_backend
  from_cache-ddos m ip r g =
      let peer = pool_peer services.first_byte ip m.pool g.router in
      elim (Bool-cases (beq r.method (codes "GET") && g.config.enable_caching)) [
        | inr off ↦
            rw (off, from_cache) (dispatch-ddos peer.0 m ip none r (record g { router = peer.1 }))
        | inl on ↦ elim (Option-cases (cache_get g.cache s.stored (generate_key r))) [
          | inl e ↦
              rw (on, e, from_cache)
                (dispatch-ddos peer.0 m ip (some (codes "MISS")) r (record g { router = peer.1 }))
          | inr (cached, e) ↦ rw (on, e, from_cache) refl
        ]
      ]

  if-ddos :
      (d : DdosProtection) (b : Bool) (x y : Gateway services × Reply)
      → x.0.ddos ≡ d
      → y.0.ddos ≡ d
      → (if b then x else y).0.ddos ≡ d
  if-ddos d true x y h k = h
  if-ddos d false x y h k = k

  authorize-ddos :
      (m : MatchedRoute) (ip : Bytes) (r : Request) (g : Gateway services)
      → (authorize services s m ip r g).0.ddos ≡ g.ddos
  unfolding authorize
  authorize-ddos m ip r g =
      elim (Option-cases
        (authenticate services.jwt s.unix_time g.config.jwt_secret services.hash r)) [
          | inl e ↦
              rw (e, authorize)
                (if-ddos g.ddos (m.require_auth && not (is_public_endpoint r.path)) _ _ refl
                  (from_cache-ddos m ip r g))
          | inr (user, e) ↦ rw (e, authorize) (from_cache-ddos m ip r g)
        ]

  find_route-ddos :
      (ip : Bytes) (r : Request) (g : Gateway services)
      → (find_route services s ip r g).0.ddos ≡ g.ddos
  unfolding find_route
  find_route-ddos ip r g = elim (Option-cases (route g.router r.host r.path)) [
    | inl e ↦ rw (e, find_route) refl
    | inr (m, e) ↦ rw (e, find_route) (authorize-ddos m ip r g)
  ]

  limit_rate-ddos :
      (ip : Bytes) (r : Request) (g : Gateway services)
      → (limit_rate services s ip r g).0.ddos ≡ g.ddos
  unfolding limit_rate
  limit_rate-ddos ip r g =
      let out = allow_ip services.limiters s.allowed ip g.rate_limiter in
      if-ddos g.ddos out.0 _ _ (find_route-ddos ip r (record g { rate_limiter = out.1 })) refl

  -- What `ServeHTTP` does to the protection: a check, and, unless that blocks, a count.
  pub serve_http-ddos :
      (r : Request) (g : Gateway services)
      → let ip = get_client_ip r in
        (serve_http services s r g).0.ddos
        ≡ run
            (if (is_blocked s.checked ip g.ddos).0
              then checks s.checked ip ∷ []
              else checks s.checked ip ∷ records s.recorded ip ∷ [])
            g.ddos
  unfolding serve_http run step
  serve_http-ddos r g =
      let ip = get_client_ip r in
      let checked = is_blocked s.checked ip g.ddos in
      let counted = record_request s.recorded ip checked.1 in
      elim (Bool-cases checked.0) [
        | inl e ↦ rw (e, serve_http) refl
        | inr e ↦ elim (Bool-cases counted.0) [
          | inl t ↦ rw (e, t, serve_http) refl
          | inr t ↦ rw (e, t, serve_http) (limit_rate-ddos ip r (record g { ddos = counted.1 }))
        ]
      ]

  -- A request of a whitelisted address goes straight to the token bucket.
  serve_http-whitelisted :
      (r : Request) (g : Gateway services)
      → g.ddos.whitelist (get_client_ip r) ≡ true
      → serve_http services s r g ≡ limit_rate services s (get_client_ip r) r g
  unfolding serve_http
  serve_http-whitelisted r g on =
      let ip = get_client_ip r in
      let unblocked : is_blocked s.checked ip g.ddos ≡ (false, g.ddos) =
        unfold is_blocked in rw on refl in
      let calm : record_request s.recorded ip g.ddos ≡ (false, g.ddos) =
        unfold record_request in rw on refl in
      rw (unblocked, calm, serve_http) refl

module _ (services : Services) (ip : Bytes) where
  Effect-whitelist :
      (v : Visit) (g h : Gateway services)
      → Effect services v g h
      → g.ddos.whitelist ip ≡ true
      → h.ddos.whitelist ip ≡ true
  Effect-whitelist v g h (through r) on =
      subst (λ d. d.whitelist ip ≡ true) (sym (serve_http-ddos services v.surroundings r g))
        (run-whitelist _ g.ddos ip on)
  Effect-whitelist v g h (listed operations) on = run-whitelist operations g.ddos ip on

  Steps-whitelist :
      (g h : Gateway services) (n : ℕ)
      → Steps services g n h
      → g.ddos.whitelist ip ≡ true
      → h.ddos.whitelist ip ≡ true
  unfolding cleanup
  Steps-whitelist g h n here on = on
  Steps-whitelist g h n (visited {h = before} v r steps) on =
      Effect-whitelist v before h (serve-Effect services v r before)
        (Steps-whitelist g before _ steps on)
  Steps-whitelist g h n (checked {h = before} net steps) on = Steps-whitelist g before n steps on
  Steps-whitelist g h n (cleaned {h = before} now steps) on = Steps-whitelist g before n steps on
  Steps-whitelist g h n (evicted {h = before} now steps) on = Steps-whitelist g before n steps on

whitelist_handler-adds :
    (services : Services) (r : Request) (ip : Bytes) (g : Gateway services)
    → r.method ≡ codes "POST"
    → ip ≢ []
    → (whitelist_handler services r ip g).1.ddos.whitelist ip ≡ true
unfolding whitelist_handler add_to_whitelist
whitelist_handler-adds services r ip g post named =
    let is_post : beq r.method (codes "POST") ≡ true = (beq_iff r.method (codes "POST")).1 post in
    let is_named : beq ip [] ≡ false = ground (arith, beq_iff ip []) in
    rw (is_post, is_named, whitelist_handler, beq_refl ip) refl

-- Anyone who can POST to /admin/whitelist, with no credentials, exempts an address for good: after
-- such a request and whatever the server does then, `ServeHTTP` lets each request of that address
-- pass both DDoS checks, to the token bucket. The mux has chosen the endpoint, and the parameter `ip`
-- is not empty.
pub whitelist_handler-exempts :
    (services : Services) (v : Visit) (r : Request) (g h : Gateway services) (n : ℕ)
    → v.mux endpoints (serve services v r g).request ≡ some whitelist_endpoint
    → r.method ≡ codes "POST"
    → v.query (codes "ip") ≢ []
    → Steps services (serve services v r g).gateway n h
    → (s : Surroundings) (q : Request) → get_client_ip q ≡ v.query (codes "ip")
    → serve_http services s q h ≡ limit_rate services s (get_client_ip q) q h
whitelist_handler-exempts services v r g h n chosen post named steps s q own =
    let dressed = serve-IsDressed services v r g in
    let seen = (serve services v r g).request in
    let ip = v.query (codes "ip") in
    let made : (serve services v r g).gateway ≡ (whitelist_handler services seen ip g).1 =
      ap (λ x. x.0) (dressed.dispatched ∙ ap (λ e. handle_found services v e seen g) chosen) in
    let first : (serve services v r g).gateway.ddos.whitelist ip ≡ true =
      subst (λ x. x.ddos.whitelist ip ≡ true) (sym made)
        (whitelist_handler-adds services seen ip g (dressed.unchanged.0 ∙ post) named) in
    serve_http-whitelisted services s q h (
      subst (λ a. h.ddos.whitelist a ≡ true) (sym own)
        (Steps-whitelist services ip _ h n steps first))
