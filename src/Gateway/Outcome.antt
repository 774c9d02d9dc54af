-- ===== src/Gateway/Outcome.antt =====
-- What holds of the gateway and of the response after any request.
use vxapigateway.Prelude.{
  ℕ, ◌%◌, ◌≤◌, ◌≡◌, refl, sym, ap, ◌∙◌, subst, ◌&&◌, inl, inr, ◌++◌, Option, none, some, arith,
  Bool-cases, Option-cases,
}
use vxapigateway.Prelude.Bytes.{Bytes, codes, beq}
use vxapigateway.Prelude.Word.{modulus}
use vxapigateway.Pool.{Pick, panics, nil, picked}
use vxapigateway.Router.{MatchedRoute}
use vxapigateway.Breaker.Invariant.{IsValid}
use vxapigateway.Recorder.{Writer, ResponseRecorder, write_header, write}
use vxapigateway.Recorder.Laws.{IsSound, new-IsSound, headers}
use vxapigateway.Client.{Request, get_client_ip}
use vxapigateway.Gateway.{Services, Surroundings, Gateway, Reply, Metrics}
use vxapigateway.Gateway.Exchange.{
  Exchange, Trial, finished, broken, panicked, exhausted, pool_peer, try_attempts, max_retries,
  conclude,
}
use vxapigateway.Gateway.Loop.{Holds, try_attempts-Holds}
use vxapigateway.Gateway.Retry.{
  all_connections, pool_peer-connections, IsServed, IsServed-IsKept, breaker-IsKept,
}
use vxapigateway.Cache.{generate_key, cache_get}
use vxapigateway.Gateway.Serve.{
  counted_metrics, effective_timeout, begin, finish, run_attempts, dispatch, select_backend,
  from_cache, serve_http,
}
use vxapigateway.Gateway.Order.{serve_http-cases}

error_page-IsSound :
    (w : Writer) (rr : ResponseRecorder) (b : Bytes)
    → IsSound rr
    → IsSound (write w b (write_header 503 rr)).1
unfolding write write_header
error_page-IsSound w rr b v = ground arith

-- The last step changes nothing but the recorder.
pub conclude-kept :
    (w : Writer) (t : Trial) (P : Exchange → Type 0)
    → ((x : Exchange) (r : ResponseRecorder)
        → (IsSound x.recorder → IsSound r)
        → P x
        → P (record x { recorder = r }))
    → Holds P t
    → P (conclude w t).0
unfolding conclude
conclude-kept w (finished x) P blind h = h
conclude-kept w (broken x) P blind h = h
conclude-kept w (panicked x) P blind h = h
conclude-kept w (exhausted error x) P blind h =
    blind x _
      (error_page-IsSound w x.recorder
        (codes "Service temporarily unavailable: " ++ (error ++ codes "\n")))
      h

module _ (services : Services) (s : Surroundings) where
  -- What a request does to the gateway `g`, whose breaker is valid.
  pub record IsSettled (g : Gateway services) (out : Gateway services × Reply) : Type 0 where
    pub breaker : IsValid out.0.breaker
    pub released : all_connections out.0.router ≡ all_connections g.router
    pub active : out.0.metrics.active_conns % modulus ≡ g.metrics.active_conns % modulus
    pub single : headers out.1.sent ≤ 1

  counted_metrics-active :
      (r : Request) (o : Option ℕ) (a : ℕ) (m : Metrics)
      → (counted_metrics services s r o a m).active_conns % modulus ≡ a % modulus
  counted_metrics-active r none a m = refl
  counted_metrics-active r (some status) a m = refl

  run_attempts-IsSettled :
      (m : MatchedRoute) (i : ℕ) (ip : Bytes) (c : Option Bytes) (r : Request)
      (g : Gateway services)
      → IsValid g.breaker
      → IsSettled g (run_attempts services s m i ip c r g)
  unfolding run_attempts finish
  run_attempts-IsSettled m i ip c r g v =
      let begun = begin services s m r g in
      let timeout = effective_timeout m.timeout g.config in
      let trial =
        try_attempts services.first_byte s.writer ip m.pool timeout s.attempts max_retries 0 i
          begun in
      let Served = IsServed services.first_byte s.writer ip m.pool timeout begun in
      let served : Served (conclude s.writer trial).0 =
        conclude-kept s.writer trial Served
          (λ x rr sound h. record {
            released = h.released;
            active = h.active;
            sound = λ k. sound (h.sound k);
          })
          (try_attempts-Holds services.first_byte s.writer ip m.pool timeout Served
            (IsServed-IsKept services.first_byte s.writer ip m.pool timeout begun) s.attempts
            max_retries 0 i begun (record { released = refl; active = refl; sound = λ k. k })) in
      let valid : IsValid (conclude s.writer trial).0.breaker =
        conclude-kept s.writer trial (λ x. IsValid x.breaker) (λ x rr sound h. h)
          (try_attempts-Holds services.first_byte s.writer ip m.pool timeout
            (λ x. IsValid x.breaker) (breaker-IsKept services.first_byte s.writer ip m.pool timeout)
            s.attempts max_retries 0 i begun v) in
      record {
        breaker = valid;
        released = served.released;
        active =
            counted_metrics-active (conclude s.writer trial).0.request (conclude s.writer trial).1
              (conclude s.writer trial).0.active_conns g.metrics
            ∙ served.active;
        single = (served.sound new-IsSound).single;
      }

  dispatch-IsSettled :
      (pick : Pick) (m : MatchedRoute) (ip : Bytes) (c : Option Bytes) (r : Request)
      (g : Gateway services)
      → IsValid g.breaker
      → IsSettled g (dispatch services s pick m ip c r g)
  unfolding dispatch
  dispatch-IsSettled panics m ip c r g v = record {
    breaker = v;
    released = refl;
    active = refl;
    single = omega arith;
  }
  dispatch-IsSettled nil m ip c r g v = record {
    breaker = v;
    released = refl;
    active = refl;
    single = omega arith;
  }
  dispatch-IsSettled (picked i) m ip c r g v = run_attempts-IsSettled m i ip c r g v

  select_backend-IsSettled :
      (m : MatchedRoute) (ip : Bytes) (c : Option Bytes) (r : Request) (g : Gateway services)
      → IsValid g.breaker
      → IsSettled g (select_backend services s m ip c r g)
  unfolding select_backend
  select_backend-IsSettled m ip c r g v =
      let peer = pool_peer services.first_byte ip m.pool g.router in
      let h = dispatch-IsSettled peer.0 m ip c r (record g { router = peer.1 }) v in
      record {
        breaker = h.breaker;
        released = h.released ∙ pool_peer-connections services.first_byte ip m.pool g.router;
        active = h.active;
        single = h.single;
      }

  from_cache-IsSettled :
      (m : MatchedRoute) (ip : Bytes) (r : Request) (g : Gateway services)
      → IsValid g.breaker
      → IsSettled g (from_cache services s m ip r g)
  unfolding from_cache
  from_cache-IsSettled m ip r g v =
      elim (Bool-cases (beq r.method (codes "GET") && g.config.enable_caching)) [
        | inr h ↦ rw (h, from_cache) (select_backend-IsSettled m ip none r g v)
        | inl h ↦ elim (Option-cases (cache_get g.cache s.stored (generate_key r))) [
          | inl e ↦
              rw (h, e, from_cache) (select_backend-IsSettled m ip (some (codes "MISS")) r g v)
          | inr (cached, e) ↦
              rw (h, e, from_cache)
                (record { breaker = v; released = refl; active = refl; single = omega arith })
        ]
      ]

  -- For a gateway with a valid breaker: whatever the backends, Redis and the client do with a
  -- request, the breaker stays valid, every backend and the gateway count as many connections after
  -- it as before it (as 64-bit patterns), and the client gets one status line at most.
  pub serve_http-IsSettled :
      (r : Request) (g : Gateway services)
      → IsValid g.breaker
      → IsSettled g (serve_http services s r g)
  serve_http-IsSettled r g v = elim (serve_http-cases services s r g) [
    | inl away ↦ record {
      breaker = subst IsValid (sym away.breaker_kept) v;
      released = ap all_connections away.router_kept;
      active = ap (λ m. m.active_conns % modulus) away.noted;
      single = rw away.replied (omega arith);
    }
    | inr passed ↦
        let entered = passed.entered in
        let h =
          from_cache-IsSettled passed.matched (get_client_ip r) r entered
            (subst IsValid (sym passed.same_breaker) v) in
        subst (IsSettled g) (sym passed.goes_on) (record {
          breaker = h.breaker;
          released = h.released ∙ ap all_connections passed.same_router;
          active = h.active ∙ ap (λ m. m.active_conns % modulus) passed.same_metrics;
          single = h.single;
        })
  ]
