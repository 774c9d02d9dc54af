-- ===== src/Gateway/Exchange.antt =====
-- The last part of `ServeHTTP`: the attempts to proxy a request through the circuit breaker.
use vxapigateway.Prelude.{
  ℕ, zero, suc, ◌+◌, [], ◌++◌, Option, none, some, get_elem?, modify, ◌==◌, if◌then◌else◌,
}
use vxapigateway.Prelude.Bytes.{Bytes, codes, beq}
use vxapigateway.Prelude.Word.{add64, dec64}
use vxapigateway.Backend.{Backend, inc_connections, dec_connections, record_failure}
use vxapigateway.Pool.{ServicePool, Pick, panics, nil, picked, next_peer, update_backend}
use vxapigateway.Router.{ServiceRouter}
use vxapigateway.Breaker.{CircuitBreaker, Verdict, rejected, failed, succeeded, call}
use vxapigateway.Recorder.{
  ResponseRecorder, Writer, apply_all, write_header, write, observed_status,
}
use vxapigateway.Client.{Request, real_ip, forwarded_for, set_header}
use vxapigateway.Gateway.{Attempt}

-- The state that the loop works on. `active_conns` is a 64-bit pattern.
pub record Exchange : Type 0 where
  pub router : ServiceRouter
  pub breaker : CircuitBreaker
  pub recorder : ResponseRecorder
  pub request : Request
  pub active_conns : ℕ

-- Applies a method to a backend of a pool.
abbrev pub update_pool : ℕ → (ServicePool → ServicePool) → ServiceRouter → ServiceRouter
update_pool p f sr = record sr { pools = modify sr.pools p f }

abbrev pub on_backend : ℕ → ℕ → (Backend → Backend) → Exchange → Exchange
on_backend p i f x = record x { router = update_pool p (update_backend i f) x.router }

-- The headers of an attempt. The request's header map is shared by the attempts.
abbrev pub forwarded : Bytes → Bytes → Bytes
forwarded prior ip =
    if beq prior [] then ip else if beq prior ip then ip else prior ++ (codes ", " ++ ip)

unfoldable pub attempt_headers : Bytes → Bytes → Request → Request
attempt_headers ip time r =
    set_header (codes "X-Gateway-Time") time
      (set_header real_ip ip (set_header forwarded_for (forwarded (r.headers forwarded_for) ip) r))

-- How the loop ends: after a success, after a failure in mid-response, after the last attempt with
-- the text of its error, or in a panic.
pub data Trial : Type 0 where
  finished broken panicked : Exchange → Trial
  exhausted : Bytes → Exchange → Trial

-- The next attempt is on the backend that `NextPeer` names, if any, or else on the same one.
unfoldable pub go_on : Pick → ℕ → Exchange → (ℕ → Exchange → Trial) → Trial
go_on panics i x continue = panicked x
go_on nil i x continue = continue i x
go_on (picked j) i x continue = continue j x

-- `maxRetries`
abbrev pub max_retries : ℕ
max_retries = 3

module _ (first_byte : Bytes → ℕ) (ip : Bytes) (pool : ℕ) where
  -- `NextPeer` of the matched pool.
  unfoldable pub pool_peer : ServiceRouter → Pick × ServiceRouter
  pool_peer sr = elim (get_elem? sr.pools pool) [
    | none ↦ (panics, sr)
    | some p ↦ let next = next_peer first_byte p ip in (next.0, update_pool pool (λ _. next.1) sr)
  ]

module _ (first_byte : Bytes → ℕ) (writer : Writer) (ip : Bytes) (pool timeout : ℕ) where
  -- The function given to `Call`, for the backend at position `i`.
  unfoldable pub proxy : Attempt → ℕ → Exchange → Option Bytes × Exchange
  unfolding attempt_headers inc_connections dec_connections
  proxy a i x =
      let begun = on_backend pool i inc_connections x in
      let request = attempt_headers ip a.gateway_time begun.request in
      let ran = a.serve pool i timeout request in
      let served = record begun {
        request = request;
        recorder = apply_all writer ran.0 begun.recorder;
        active_conns = dec64 (add64 begun.active_conns 1);
      } in
      (ran.1, on_backend pool i dec_connections served)

  -- `Call`, with the breaker kept in the exchange.
  unfoldable pub guarded : Attempt → ℕ → Exchange → Verdict Bytes × Exchange
  unfolding proxy
  guarded a i x =
      let ran = call a.now a.later (proxy a i) x x.breaker in
      (ran.0, record ran.1 { breaker = ran.2 })

  -- The end of an attempt that failed: the failure is noted, and another backend is tried, unless
  -- the client has seen part of a response or `left`, the number of attempts left, is 0.
  unfoldable pub after_failure : ℕ → Attempt → Bytes → ℕ → Exchange → (ℕ → Exchange → Trial) → Trial
  unfolding record_failure pool_peer go_on
  after_failure left a error i x continue =
      let noted = on_backend pool i (record_failure a.noted) x in
      let peer = pool_peer first_byte ip pool noted.router in
      let next = record noted { router = peer.1 } in
      if noted.recorder.committed
      then broken noted
      else if left == 0
      then exhausted error noted
      else go_on peer.0 i next continue

  -- The rest of an attempt, after `Call`.
  unfoldable pub after_verdict :
      Verdict Bytes → ℕ → Attempt → ℕ → Exchange → (ℕ → Exchange → Trial) → Trial
  unfolding after_failure
  after_verdict succeeded left a i x continue = finished x
  after_verdict rejected left a i x continue =
      after_failure left a (codes "circuit breaker is open") i x continue
  after_verdict (failed error) left a i x continue = after_failure left a error i x continue

  -- The loop, from attempt `n` on, for the backend at position `i`.
  unfoldable pub try_attempts : (ℕ → Attempt) → ℕ → ℕ → ℕ → Exchange → Trial
  unfolding guarded after_verdict
  try_attempts attempts zero n i x = exhausted (codes "<nil>") x
  try_attempts attempts (suc left) n i x =
      let tried = guarded (attempts n) i x in
      after_verdict tried.0 left (attempts n) i tried.1 (try_attempts attempts left (n + 1))

-- The exchange behind the loop, the status that is counted, or none after a panic.
unfoldable pub conclude : Writer → Trial → Exchange × Option ℕ
unfolding write_header write observed_status
conclude writer (finished x) = (x, some (observed_status x.recorder))
conclude writer (broken x) = (x, some (observed_status x.recorder))
conclude writer (panicked x) = (x, none)
conclude writer (exhausted error x) =
    let message = codes "Service temporarily unavailable: " ++ (error ++ codes "\n") in
    (record x { recorder = (write writer message (write_header 503 x.recorder)).1 }, some 503)
