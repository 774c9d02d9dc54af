-- ===== src/Gateway/Order.antt =====
-- The order of the checks of `ServeHTTP`: what a request has passed before a backend sees it.
use vxapigateway.Prelude.{
  ℕ, ◌≡◌, ◌≢◌, ◌⊎◌, inl, inr, refl, ap, true, false, ◌&&◌, not, none, some, arith, Bool-cases,
  Option-cases,
}
use vxapigateway.Prelude.Bytes.{Bytes, codes}
use vxapigateway.Ddos.{is_blocked, record_request}
use vxapigateway.Limiter.{allow_ip}
use vxapigateway.Auth.{authenticate}
use vxapigateway.Router.{MatchedRoute, route}
use vxapigateway.Client.{Request, get_client_ip, is_public_endpoint}
use vxapigateway.Gateway.{
  Services, Surroundings, Gateway, counted, Reply, count_request, http_error,
}
use vxapigateway.Gateway.Serve.{reject, from_cache, authorize, find_route, limit_rate, serve_http}

module _ (services : Services) (s : Surroundings) where
  -- The caller is known, the route is open to all, or the path is public.
  abbrev pub IsAuthorized : MatchedRoute → Request → Gateway services → Type 0
  IsAuthorized m r g =
      (authenticate services.jwt s.unix_time g.config.jwt_secret services.hash r ≢ none)
      ⊎ ((m.require_auth && not (is_public_endpoint r.path)) ≡ false)

  -- What a request has to pass.
  pub record IsAdmitted (m : MatchedRoute) (r : Request) (g : Gateway services) : Type 0 where
    pub unblocked : (is_blocked s.checked (get_client_ip r) g.ddos).0 ≡ false
    pub calm :
        (record_request s.recorded
          (get_client_ip r)
          (is_blocked s.checked (get_client_ip r) g.ddos).1).0
        ≡ false
    pub in_rate : (allow_ip services.limiters s.allowed (get_client_ip r) g.rate_limiter).0 ≡ true
    pub routed : route g.router r.host r.path ≡ some m
    pub authorized : IsAuthorized m r g

  -- A request that is turned away: its error is one of the gateway's own, sent and counted once, and
  -- neither the pools nor the breaker have changed.
  pub record IsRejected (r : Request) (g : Gateway services) (out : Gateway services × Reply)
      : Type 0 where
    pub router_kept : out.0.router ≡ g.router
    pub breaker_kept : out.0.breaker ≡ g.breaker
    pub code : ℕ
    pub message : Bytes
    pub is_own : (code ≡ 429) ⊎ ((code ≡ 404) ⊎ (code ≡ 401))
    pub replied : out.1.sent ≡ http_error code message
    pub ended : out.1.ending ≡ counted code
    pub noted : out.0.metrics ≡ count_request r code g.metrics

  -- A request that has passed every check goes on to the cache and the backends of its route.
  pub record IsPassed (r : Request) (g : Gateway services) (out : Gateway services × Reply)
      : Type 0 where
    pub matched : MatchedRoute
    pub admitted : IsAdmitted matched r g
    pub entered : Gateway services
    pub same_router : entered.router ≡ g.router
    pub same_breaker : entered.breaker ≡ g.breaker
    pub same_metrics : entered.metrics ≡ g.metrics
    pub goes_on : out ≡ from_cache services s matched (get_client_ip r) r entered

  authorize-cases :
      (m : MatchedRoute) (ip : Bytes) (r : Request) (g : Gateway services)
      → ((authorize services s m ip r g ≡ from_cache services s m ip r g) × IsAuthorized m r g)
        ⊎ (authorize services s m ip r g ≡ reject services s 401 (codes "Unauthorized") none r g)
  unfolding authorize
  authorize-cases m ip r g =
      elim (Option-cases
        (authenticate services.jwt s.unix_time g.config.jwt_secret services.hash r)) [
          | inr (user, e) ↦ inl (rw (e, authorize) refl, inl (ground arith))
          | inl e ↦ elim (Bool-cases (m.require_auth && not (is_public_endpoint r.path))) [
            | inl h ↦ inr (rw (e, h, authorize) refl)
            | inr h ↦ inl (rw (e, h, authorize) refl, inr h)
          ]
        ]

  reject-IsRejected :
      (code : ℕ) (message : Bytes) (r : Request) (g g' : Gateway services)
      → g'.router ≡ g.router
      → g'.breaker ≡ g.breaker
      → g'.metrics ≡ g.metrics
      → ((code ≡ 429) ⊎ ((code ≡ 404) ⊎ (code ≡ 401)))
      → IsRejected r g (reject services s code message none r g')
  reject-IsRejected code message r g g' same same' same'' own = record {
    router_kept = same;
    breaker_kept = same';
    code = code;
    message = message;
    is_own = own;
    replied = refl;
    ended = refl;
    noted = ap (count_request r code) same'';
  }

  -- Every request is either turned away with one error of the gateway's own (429, 404 or 401), the
  -- pools and the breaker untouched, or it has passed all the checks: its client is not blocked and
  -- does not trip the protection, has a token left, and may use the route that matches.
  pub serve_http-cases :
      (r : Request) (g : Gateway services)
      → IsRejected r g (serve_http services s r g) ⊎ IsPassed r g (serve_http services s r g)
  unfolding serve_http limit_rate find_route
  serve_http-cases r g =
      let ip = get_client_ip r in
      let (blocked, d) = is_blocked s.checked ip g.ddos in
      let (tripped, d') = record_request s.recorded ip d in
      let (allowed, used) = allow_ip services.limiters s.allowed ip g.rate_limiter in
      let g1 = record g { ddos = d } in
      let g2 = record g { ddos = d' } in
      let g3 = record g2 { rate_limiter = used } in
      elim (Bool-cases blocked) [
        | inl b ↦ inl (
            rw (b, serve_http)
              (reject-IsRejected 429 (codes "Too many requests - IP blocked") r g g1 refl refl refl
                (inl refl)))
        | inr b ↦ elim (Bool-cases tripped) [
          | inl t ↦ inl (
              rw (b, t, serve_http)
                (reject-IsRejected 429 (codes "DDoS protection triggered") r g g2 refl refl refl
                  (inl refl)))
          | inr t ↦ elim (Bool-cases allowed) [
            | inr a ↦ inl (
                rw (b, t, a, serve_http, limit_rate)
                  (reject-IsRejected 429 (codes "Rate limit exceeded") r g g3 refl refl refl
                    (inl refl)))
            | inl a ↦ elim (Option-cases (route g.router r.host r.path)) [
              | inl e ↦ inl (
                  rw (b, t, a, e, serve_http, limit_rate, find_route)
                    (reject-IsRejected 404 (codes "No route matched") r g g3 refl refl refl
                      (inr (inl refl))))
              | inr (m, e) ↦ elim (authorize-cases m ip r g3) [
                | inr denied ↦ inl (
                    rw (b, t, a, e, denied, serve_http, limit_rate, find_route)
                      (reject-IsRejected 401 (codes "Unauthorized") r g g3 refl refl refl
                        (inr (inr refl))))
                | inl (same, authorized) ↦ inr (record {
                  matched = m;
                  admitted = record {
                    unblocked = b;
                    calm = t;
                    in_rate = a;
                    routed = e;
                    authorized = authorized;
                  };
                  entered = g3;
                  same_router = refl;
                  same_breaker = refl;
                  same_metrics = refl;
                  goes_on = rw (b, t, a, e, same, serve_http, limit_rate, find_route) refl;
                })
              ]
            ]
          ]
        ]
      ]
