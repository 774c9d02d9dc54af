-- ===== src/Gateway/Status.antt =====
-- The status that `ServeHTTP` counts is the one that the client gets.
use vxapigateway.Prelude.{
  ℕ, zero, suc, ◌+◌, ◌≡◌, refl, ◌⊎◌, inl, inr, ◌&&◌, Bool, true, false, List, ◌++◌, ◌==◌, Option,
  none, some, arith, Bool-cases, Option-cases, if◌then◌else◌,
}
use vxapigateway.Prelude.Bytes.{Bytes, codes, beq}
use vxapigateway.Pool.{Pick, panics, nil, picked}
use vxapigateway.Backend.{record_failure}
use vxapigateway.Breaker.{Verdict, rejected, failed, succeeded}
use vxapigateway.Router.{MatchedRoute}
use vxapigateway.Recorder.{
  ClientEvent, Writer, ResponseRecorder, write_header, write, observed_status,
}
use vxapigateway.Recorder.Wire.{
  wire, on_return, taken, begun, IsPatient, IsFinal, IsUntouched, IsTold, apply_all-IsTold,
}
use vxapigateway.Client.{Request, get_client_ip}
use vxapigateway.Gateway.{Attempt, Services, Surroundings, Gateway, Ending, counted, crashed}
use vxapigateway.Gateway.Exchange.{
  Exchange, Trial, finished, broken, panicked, exhausted, pool_peer, try_attempts, max_retries,
  conclude, attempt_headers, proxy, guarded, go_on, after_failure, after_verdict, on_backend,
}
use vxapigateway.Gateway.Retry.{guarded-keeps}
use vxapigateway.Cache.{generate_key, cache_get}
use vxapigateway.Gateway.Serve.{
  effective_timeout, begin, finish, run_attempts, dispatch, select_backend, from_cache, serve_http,
}
use vxapigateway.Gateway.Order.{serve_http-cases}

-- The proxies flush nothing before they begin a response, and write final statuses only.
abbrev pub IsWellBehaved : (ℕ → Attempt) → Type 0
IsWellBehaved attempts =
    (n pool i timeout : ℕ) (r : Request)
    → IsPatient ((attempts n).serve pool i timeout r).0
      × IsFinal ((attempts n).serve pool i timeout r).0

-- The client gets the status that is counted, or what the caller of Hijack writes.
abbrev pub IsReported : Ending → List ClientEvent → Type 0
IsReported crashed sent = Unit {0}
IsReported (counted status) sent = (on_return (wire sent) ≡ begun status) ⊎ (wire sent ≡ taken)

-- How the loop leaves the recorder.
abbrev Leaves : Trial → Type 0
Leaves (finished x) = IsTold x.recorder
Leaves (broken x) = IsTold x.recorder
Leaves (panicked x) = Unit {0}
Leaves (exhausted error x) = IsUntouched x.recorder

if-Leaves :
    (b : Bool) (t u : Trial)
    → (b ≡ true → Leaves t)
    → (b ≡ false → Leaves u)
    → Leaves (if b then t else u)
if-Leaves true t u h k = h refl
if-Leaves false t u h k = k refl

untouched : (rr : ResponseRecorder) → IsTold rr → rr.committed ≡ false → IsUntouched rr
untouched rr (inl u) h = u
untouched rr (inr (c, n, e)) h = absurd (cc (c, h))

go_on-Leaves :
    (pick : Pick) (i : ℕ) (x : Exchange) (continue : ℕ → Exchange → Trial)
    → ((j : ℕ) → Leaves (continue j x))
    → Leaves (go_on pick i x continue)
unfolding go_on
go_on-Leaves panics i x continue next = tt
go_on-Leaves nil i x continue next = next i
go_on-Leaves (picked j) i x continue next = next j

module _ (first_byte : Bytes → ℕ) (writer : Writer) (ip : Bytes) (pool timeout : ℕ) where
  after_failure-Leaves :
      (left : ℕ) (a : Attempt) (error : Bytes) (i : ℕ) (x : Exchange)
      (continue : ℕ → Exchange → Trial)
      → ((j : ℕ) (y : Exchange) → IsUntouched y.recorder → Leaves (continue j y))
      → IsTold x.recorder
      → Leaves (after_failure first_byte writer ip pool timeout left a error i x continue)
  unfolding after_failure
  after_failure-Leaves left a error i x continue next told =
      let noted = on_backend pool i (record_failure a.noted) x in
      let peer = pool_peer first_byte ip pool noted.router in
      if-Leaves noted.recorder.committed (broken noted)
        (if left == 0
          then exhausted error noted
          else go_on peer.0 i (record noted { router = peer.1 }) continue)
        (λ committed. told)
        (λ open_yet.
          if-Leaves (left == 0) (exhausted error noted)
            (go_on peer.0 i (record noted { router = peer.1 }) continue)
            (λ last. untouched x.recorder told open_yet)
            (λ more.
              go_on-Leaves peer.0 i (record noted { router = peer.1 }) continue
                (λ j. next j _ (untouched x.recorder told open_yet))))

  after_verdict-Leaves :
      (v : Verdict Bytes) (left : ℕ) (a : Attempt) (i : ℕ) (x : Exchange)
      (continue : ℕ → Exchange → Trial)
      → ((j : ℕ) (y : Exchange) → IsUntouched y.recorder → Leaves (continue j y))
      → IsTold x.recorder
      → Leaves (after_verdict first_byte writer ip pool timeout v left a i x continue)
  unfolding after_verdict
  after_verdict-Leaves succeeded left a i x continue next told = told
  after_verdict-Leaves rejected left a i x continue next told =
      after_failure-Leaves left a (codes "circuit breaker is open") i x continue next told
  after_verdict-Leaves (failed error) left a i x continue next told =
      after_failure-Leaves left a error i x continue next told

  proxy-IsTold :
      (attempts : ℕ → Attempt) (n i : ℕ) (x : Exchange)
      → IsWellBehaved attempts
      → IsTold x.recorder
      → IsTold (proxy first_byte writer ip pool timeout (attempts n) i x).1.recorder
  unfolding proxy
  proxy-IsTold attempts n i x well told =
      let (patient, final) =
        well n pool i timeout (attempt_headers ip (attempts n).gateway_time x.request) in
      apply_all-IsTold writer _ x.recorder told patient final

  try_attempts-Leaves :
      (attempts : ℕ → Attempt) (left n i : ℕ) (x : Exchange)
      → IsWellBehaved attempts
      → IsUntouched x.recorder
      → Leaves (try_attempts first_byte writer ip pool timeout attempts left n i x)
  unfolding try_attempts
  try_attempts-Leaves attempts zero n i x well u = u
  try_attempts-Leaves attempts (suc left) n i x well u =
      let ran = guarded first_byte writer ip pool timeout (attempts n) i x in
      after_verdict-Leaves ran.0 left (attempts n) i ran.1
        (try_attempts first_byte writer ip pool timeout attempts left (n + 1))
        (λ j y. try_attempts-Leaves attempts left (n + 1) j y well)
        (guarded-keeps first_byte writer ip pool timeout (λ y. IsTold y.recorder) (λ y cb h. h)
          (attempts n) i x (proxy-IsTold attempts n i x well) (inl u))

told-IsReported :
    (rr : ResponseRecorder) → IsTold rr → IsReported (counted (observed_status rr)) rr.sent
unfolding observed_status
told-IsReported rr (inl (c, n, e)) = ground arith
told-IsReported rr (inr (c, n, inl e)) = ground arith
told-IsReported rr (inr (c, n, inr e)) = inr e

error_page-IsReported :
    (w : Writer) (rr : ResponseRecorder) (b : Bytes)
    → IsUntouched rr
    → IsReported (counted 503) (write w b (write_header 503 rr)).1.sent
unfolding write write_header
error_page-IsReported w rr b (c, n, e) = ground arith

module _ (services : Services) (s : Surroundings) (well : IsWellBehaved s.attempts) where
  finish-IsReported :
      (c : Option Bytes) (g : Gateway services) (t : Trial)
      → Leaves t
      → IsReported (finish services s c g t).1.ending (finish services s c g t).1.sent
  unfolding finish conclude
  finish-IsReported c g (finished x) h = told-IsReported x.recorder h
  finish-IsReported c g (broken x) h = told-IsReported x.recorder h
  finish-IsReported c g (panicked x) h = tt
  finish-IsReported c g (exhausted error x) h =
      error_page-IsReported s.writer x.recorder
        (codes "Service temporarily unavailable: " ++ (error ++ codes "\n")) h

  run_attempts-IsReported :
      (m : MatchedRoute) (i : ℕ) (ip : Bytes) (c : Option Bytes) (r : Request)
      (g : Gateway services)
      → IsReported
          (run_attempts services s m i ip c r g).1.ending
          (run_attempts services s m i ip c r g).1.sent
  unfolding run_attempts
  run_attempts-IsReported m i ip c r g = finish-IsReported c g _ (
      try_attempts-Leaves services.first_byte s.writer ip m.pool
        (effective_timeout m.timeout g.config) s.attempts max_retries 0 i (begin services s m r g)
        well (refl, refl, refl))

  dispatch-IsReported :
      (pick : Pick) (m : MatchedRoute) (ip : Bytes) (c : Option Bytes) (r : Request)
      (g : Gateway services)
      → IsReported
          (dispatch services s pick m ip c r g).1.ending
          (dispatch services s pick m ip c r g).1.sent
  unfolding dispatch
  dispatch-IsReported panics m ip c r g = tt
  dispatch-IsReported nil m ip c r g = inl refl
  dispatch-IsReported (picked i) m ip c r g = run_attempts-IsReported m i ip c r g

  select_backend-IsReported :
      (m : MatchedRoute) (ip : Bytes) (c : Option Bytes) (r : Request) (g : Gateway services)
      → IsReported
          (select_backend services s m ip c r g).1.ending
          (select_backend services s m ip c r g).1.sent
  unfolding select_backend
  select_backend-IsReported m ip c r g =
      let peer = pool_peer services.first_byte ip m.pool g.router in
      dispatch-IsReported peer.0 m ip c r (record g { router = peer.1 })

  from_cache-IsReported :
      (m : MatchedRoute) (ip : Bytes) (r : Request) (g : Gateway services)
      → IsReported (from_cache services s m ip r g).1.ending (from_cache services s m ip r g).1.sent
  unfolding from_cache
  from_cache-IsReported m ip r g =
      elim (Bool-cases (beq r.method (codes "GET") && g.config.enable_caching)) [
        | inr h ↦ rw (h, from_cache) (select_backend-IsReported m ip none r g)
        | inl h ↦ elim (Option-cases (cache_get g.cache s.stored (generate_key r))) [
          | inl e ↦ rw (h, e, from_cache) (select_backend-IsReported m ip (some (codes "MISS")) r g)
          | inr (cached, e) ↦ rw (h, e, from_cache) (inl refl)
        ]
      ]

  -- If the proxies flush nothing before they begin a response and write final statuses only, then the
  -- status that a request is counted with is the one that its client gets, through all attempts and on
  -- every early reply. Only a hijacked connection gets what its proxy writes.
  pub serve_http-IsReported :
      (r : Request) (g : Gateway services)
      → IsReported (serve_http services s r g).1.ending (serve_http services s r g).1.sent
  serve_http-IsReported r g = elim (serve_http-cases services s r g) [
    | inl away ↦ rw (away.ended, away.replied) (inl refl)
    | inr passed ↦
        rw passed.goes_on (from_cache-IsReported passed.matched (get_client_ip r) r passed.entered)
  ]
