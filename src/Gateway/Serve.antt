-- ===== src/Gateway/Serve.antt =====
-- The stages of `ServeHTTP`, each called by the one below it.
use vxapigateway.Prelude.{ℕ, suc, ◌&&◌, not, [], ◌∷◌, Option, none, some, if◌then◌else◌}
use vxapigateway.Prelude.Bytes.{Bytes, codes, beq}
use vxapigateway.Prelude.Word.{slt}
use vxapigateway.Pool.{Pick, panics, nil, picked}
use vxapigateway.Ddos.{is_blocked, record_request}
use vxapigateway.Limiter.{allow_ip}
use vxapigateway.Auth.{authenticate}
use vxapigateway.Router.{MatchedRoute, route}
use vxapigateway.Recorder.{body, header, new_response_recorder}
use vxapigateway.Client.{Request, get_client_ip, is_public_endpoint}
use vxapigateway.Cache.{generate_key, cache_get}
use vxapigateway.Config.{Config}
use vxapigateway.Gateway.{
  Services, Metrics, Surroundings, Gateway, Ending, counted, crashed, Reply, count_request,
  http_error,
}
use vxapigateway.Gateway.Exchange.{Exchange, Trial, pool_peer, try_attempts, max_retries, conclude}

-- `matched.Timeout`, or `ConnectionTimeout` if that is not positive.
abbrev pub effective_timeout : ℕ → Config → ℕ
effective_timeout timeout c = if slt 0 timeout then timeout else c.connection_timeout

module _ (services : Services) (s : Surroundings) where
  -- An early reply with an error.
  abbrev pub reject :
      ℕ → Bytes → Option Bytes → Request → Gateway services → Gateway services × Reply
  reject code message x_cache r g = (
    record g { metrics = count_request r code g.metrics },
    record { sent = http_error code message; x_cache = x_cache; ending = counted code },
  )

  abbrev pub ending_of : Option ℕ → Ending
  ending_of none = crashed
  ending_of (some status) = counted status

  abbrev pub counted_metrics : Request → Option ℕ → ℕ → Metrics → Metrics
  counted_metrics r none active m = record m { active_conns = active }
  counted_metrics r (some status) active m =
      count_request r status (record m { active_conns = active })

  -- What is left of the loop.
  unfoldable pub finish : Option Bytes → Gateway services → Trial → Gateway services × Reply
  unfolding conclude
  finish x_cache g trial =
      let (x, status) = conclude s.writer trial in
      (
        record g {
          router = x.router;
          breaker = x.breaker;
          metrics = counted_metrics x.request status x.active_conns g.metrics;
        },
        record { sent = x.recorder.sent; x_cache = x_cache; ending = ending_of status },
      )

  abbrev pub begin : MatchedRoute → Request → Gateway services → Exchange
  begin m r g = record {
    router = g.router;
    breaker = g.breaker;
    recorder = new_response_recorder;
    request = record r { path = m.backend_path };
    active_conns = g.metrics.active_conns;
  }

  -- The attempts, from the backend at position `i` of the matched pool on.
  unfoldable pub run_attempts :
      MatchedRoute
      → ℕ
      → Bytes
      → Option Bytes
      → Request
      → Gateway services
      → Gateway services × Reply
  unfolding try_attempts finish
  run_attempts m i ip x_cache r g = finish x_cache g (
      try_attempts services.first_byte s.writer ip m.pool (effective_timeout m.timeout g.config)
        s.attempts max_retries 0 i (begin m r g))

  -- What follows on the answer of `NextPeer`.
  unfoldable pub dispatch :
      Pick
      → MatchedRoute
      → Bytes
      → Option Bytes
      → Request
      → Gateway services
      → Gateway services × Reply
  unfolding run_attempts
  dispatch panics m ip x_cache r g = (g, record { sent = []; x_cache = x_cache; ending = crashed })
  dispatch nil m ip x_cache r g = reject 503 (codes "No healthy backends available") x_cache r g
  dispatch (picked i) m ip x_cache r g = run_attempts m i ip x_cache r g

  -- The choice of a backend.
  unfoldable pub select_backend :
      MatchedRoute → Bytes → Option Bytes → Request → Gateway services → Gateway services × Reply
  unfolding pool_peer dispatch
  select_backend m ip x_cache r g =
      let peer = pool_peer services.first_byte ip m.pool g.router in
      dispatch peer.0 m ip x_cache r (record g { router = peer.1 })

  -- The cache, which only GET requests ask.
  unfoldable pub from_cache :
      MatchedRoute → Bytes → Request → Gateway services → Gateway services × Reply
  unfolding cache_get generate_key select_backend
  from_cache m ip r g =
      if beq r.method (codes "GET") && g.config.enable_caching
      then elim (cache_get g.cache s.stored (generate_key r)) [
        | some cached ↦ (
          record g {
            metrics =
                count_request r 200 (record g.metrics { cache_hits = suc g.metrics.cache_hits });
          },
          record {
            sent = body cached ∷ header 200 ∷ [];
            x_cache = some (codes "HIT");
            ending = counted 200;
          },
        )
        | none ↦ select_backend m ip (some (codes "MISS")) r g
      ]
      else select_backend m ip none r g

  -- The check of the authentication that the route asks for.
  unfoldable pub authorize :
      MatchedRoute → Bytes → Request → Gateway services → Gateway services × Reply
  unfolding from_cache
  authorize m ip r g =
      elim (authenticate services.jwt s.unix_time g.config.jwt_secret services.hash r) [
        | some user ↦ from_cache m ip r g
        | none ↦
            if m.require_auth && not (is_public_endpoint r.path)
            then reject 401 (codes "Unauthorized") none r g
            else from_cache m ip r g
      ]

  -- The choice of a route.
  unfoldable pub find_route : Bytes → Request → Gateway services → Gateway services × Reply
  unfolding authorize
  find_route ip r g = elim (route g.router r.host r.path) [
    | none ↦ reject 404 (codes "No route matched") none r g
    | some m ↦ authorize m ip r g
  ]

  -- The token bucket of the client.
  unfoldable pub limit_rate : Bytes → Request → Gateway services → Gateway services × Reply
  unfolding find_route
  limit_rate ip r g =
      let (allowed, used) = allow_ip services.limiters s.allowed ip g.rate_limiter in
      let limited = record g { rate_limiter = used } in
      if allowed
      then find_route ip r limited
      else reject 429 (codes "Rate limit exceeded") none r limited

  -- `ServeHTTP`, up to the token bucket.
  unfoldable pub serve_http : Request → Gateway services → Gateway services × Reply
  unfolding limit_rate
  serve_http r g =
      let ip = get_client_ip r in
      let (blocked, d) = is_blocked s.checked ip g.ddos in
      let checked = record g { ddos = d } in
      let (tripped, d') = record_request s.recorded ip d in
      let noted = record g { ddos = d' } in
      if blocked
      then reject 429 (codes "Too many requests - IP blocked") none r checked
      else if tripped
      then reject 429 (codes "DDoS protection triggered") none r noted
      else limit_rate ip r noted
