-- ===== src/Gateway/Answer.antt =====
-- Every request gets an answer: with a well-formed router nothing in `ServeHTTP` panics.
use vxapigateway.Prelude.{
  ℕ, ◌+◌, ◌<◌, ◌≡◌, refl, sym, ap, subst, inl, inr, true, ◌&&◌, Option, none, some, All-get_elem?,
  length, arith, Bool-cases, Option-cases,
}
use vxapigateway.Prelude.Bytes.{Bytes, codes, beq}
use vxapigateway.Prelude.Word.{slt}
use vxapigateway.Pool.{Pick, panics, nil, picked}
use vxapigateway.Pool.Total.{IsPanic}
use vxapigateway.Router.{MatchedRoute, ServiceRouter, route}
use vxapigateway.Router.Lookup.{route-most_specific}
use vxapigateway.Router.Invariant.{IsWellFormed}
use vxapigateway.Recorder.{Writer, observed_status}
use vxapigateway.Client.{Request, get_client_ip}
use vxapigateway.Gateway.{Services, Surroundings, Gateway, Reply, counted}
use vxapigateway.Gateway.Exchange.{
  Trial, finished, broken, panicked, exhausted, pool_peer, try_attempts, max_retries, conclude,
}
use vxapigateway.Gateway.Loop.{try_attempts-Holds}
use vxapigateway.Gateway.Room.{
  AllHaveCalls, AllHaveCalls-weaken, IsReady, IsReady-weaken, IsFine, pool_peer-IsReady,
  try_attempts-IsFine,
}
use vxapigateway.Gateway.Table.{pool_peer-IsWellFormed, router-IsKept}
use vxapigateway.Gateway.Outcome.{conclude-kept}
use vxapigateway.Cache.{generate_key, cache_get}
use vxapigateway.Gateway.Serve.{
  ending_of, effective_timeout, begin, finish, run_attempts, dispatch, select_backend, from_cache,
  serve_http,
}
use vxapigateway.Gateway.Order.{serve_http-cases}

conclude-IsFine :
    (w : Writer) (pool k : ℕ) (t : Trial)
    → IsFine pool k t
    → ((status : ℕ) × ((conclude w t).1 ≡ some status)) × IsReady pool k (conclude w t).0.router
unfolding conclude
conclude-IsFine w pool k (finished x) h = ((observed_status x.recorder, refl), h)
conclude-IsFine w pool k (broken x) h = ((observed_status x.recorder, refl), h)
conclude-IsFine w pool k (panicked x) h = elim h [ ]
conclude-IsFine w pool k (exhausted error x) h = ((503, refl), h)

-- The pool of a matched route is one of the router's.
route-linked :
    (sr : ServiceRouter) (host path : Bytes) (m : MatchedRoute)
    → IsWellFormed sr
    → route sr host path ≡ some m
    → m.pool < length sr.pools
route-linked sr host path m v e =
    let (entry, i, same, first, _) = route-most_specific sr host path m v.ordered e in
    let linked =
      All-get_elem? (λ x. (x.pool < length sr.pools) × (slt 0 x.timeout ≡ true)) sr.routes i entry
        v.linked first.0 in
    subst (λ x. x.pool < length sr.pools) (sym same) linked.0

module _ (services : Services) (s : Surroundings) where
  -- A status is counted, the router is well-formed, and its pools have `k` calls left.
  pub record IsAnswered (k : ℕ) (out : Gateway services × Reply) : Type 0 where
    pub table : IsWellFormed out.0.router
    pub calls : AllHaveCalls k out.0.router
    pub answered : (status : ℕ) × (out.1.ending ≡ counted status)

  run_attempts-IsAnswered :
      (k : ℕ) (m : MatchedRoute) (i : ℕ) (ip : Bytes) (c : Option Bytes) (r : Request)
      (g : Gateway services)
      → IsWellFormed g.router
      → IsReady m.pool (3 + k) g.router
      → IsAnswered k (run_attempts services s m i ip c r g)
  unfolding run_attempts finish
  run_attempts-IsAnswered k m i ip c r g v h =
      let begun = begin services s m r g in
      let timeout = effective_timeout m.timeout g.config in
      let trial =
        try_attempts services.first_byte s.writer ip m.pool timeout s.attempts max_retries 0 i
          begun in
      let ((status, e), ready) = conclude-IsFine s.writer m.pool k trial (
        try_attempts-IsFine services.first_byte s.writer ip m.pool timeout k s.attempts 3 0 i begun
          h) in
      record {
        table =
            conclude-kept s.writer trial (λ x. IsWellFormed x.router) (λ x rr sound w. w)
              (try_attempts-Holds services.first_byte s.writer ip m.pool timeout
                (λ x. IsWellFormed x.router)
                (router-IsKept services.first_byte s.writer ip m.pool timeout) s.attempts
                max_retries 0 i begun v);
        calls = ready.calls;
        answered = (status, ap (ending_of services s) e);
      }

  dispatch-IsAnswered :
      (k : ℕ) (pick : Pick) (m : MatchedRoute) (ip : Bytes) (c : Option Bytes) (r : Request)
      (g : Gateway services)
      → ¬ IsPanic pick
      → IsWellFormed g.router
      → IsReady m.pool (3 + k) g.router
      → IsAnswered k (dispatch services s pick m ip c r g)
  unfolding dispatch
  dispatch-IsAnswered k panics m ip c r g fine v h = absurd (fine tt)
  dispatch-IsAnswered k nil m ip c r g fine v h = record {
    table = v;
    calls = AllHaveCalls-weaken k (3 + k) g.router.pools (omega arith) h.calls;
    answered = (503, refl);
  }
  dispatch-IsAnswered k (picked i) m ip c r g fine v h = run_attempts-IsAnswered k m i ip c r g v h

  select_backend-IsAnswered :
      (k : ℕ) (m : MatchedRoute) (ip : Bytes) (c : Option Bytes) (r : Request)
      (g : Gateway services)
      → IsWellFormed g.router
      → IsReady m.pool (4 + k) g.router
      → IsAnswered k (select_backend services s m ip c r g)
  unfolding select_backend
  select_backend-IsAnswered k m ip c r g v h =
      let peer = pool_peer services.first_byte ip m.pool g.router in
      let (fine, ready) =
        pool_peer-IsReady services.first_byte ip m.pool (3 + k) g.router
          (IsReady-weaken m.pool (3 + k + 1) (4 + k) g.router (omega arith) h) in
      dispatch-IsAnswered k peer.0 m ip c r (record g { router = peer.1 }) fine
        (pool_peer-IsWellFormed services.first_byte ip m.pool g.router v) ready

  from_cache-IsAnswered :
      (k : ℕ) (m : MatchedRoute) (ip : Bytes) (r : Request) (g : Gateway services)
      → IsWellFormed g.router
      → IsReady m.pool (4 + k) g.router
      → IsAnswered k (from_cache services s m ip r g)
  unfolding from_cache
  from_cache-IsAnswered k m ip r g v h =
      elim (Bool-cases (beq r.method (codes "GET") && g.config.enable_caching)) [
        | inr off ↦ rw (off, from_cache) (select_backend-IsAnswered k m ip none r g v h)
        | inl on ↦ elim (Option-cases (cache_get g.cache s.stored (generate_key r))) [
          | inl e ↦
              rw (on, e, from_cache)
                (select_backend-IsAnswered k m ip (some (codes "MISS")) r g v h)
          | inr (cached, e) ↦
              rw (on, e, from_cache)
                (record {
                  table = v;
                  calls = AllHaveCalls-weaken k (4 + k) g.router.pools (omega arith) h.calls;
                  answered = (200, refl);
                })
        ]
      ]

  -- A gateway with a well-formed router whose counters are in range for this request answers it,
  -- whatever the backends, Redis and the client do: a status is counted, and no index is out of range.
  -- The router stays well-formed, and the counters have moved by four at most.
  pub serve_http-IsAnswered :
      (k : ℕ) (r : Request) (g : Gateway services)
      → IsWellFormed g.router
      → AllHaveCalls (4 + k) g.router
      → IsAnswered k (serve_http services s r g)
  serve_http-IsAnswered k r g v h = elim (serve_http-cases services s r g) [
    | inl away ↦ record {
      table = subst IsWellFormed (sym away.router_kept) v;
      calls =
          subst (AllHaveCalls k) (sym away.router_kept)
            (AllHaveCalls-weaken k (4 + k) g.router.pools (omega arith) h);
      answered = (away.code, away.ended);
    }
    | inr passed ↦
        let linked = route-linked g.router r.host r.path passed.matched v passed.admitted.routed in
        subst (IsAnswered k) (sym passed.goes_on) (
          from_cache-IsAnswered k passed.matched (get_client_ip r) r passed.entered
            (subst IsWellFormed (sym passed.same_router) v)
            (subst (IsReady passed.matched.pool (4 + k)) (sym passed.same_router)
              (record { linked = linked; calls = h })))
  ]
