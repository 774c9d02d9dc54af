-- ===== src/Gateway/Loop.antt =====
-- What the loop of attempts keeps: a property of the exchange that each of its steps keeps.
use vxapigateway.Prelude.{ℕ, zero, suc, ◌+◌, Bool, true, false, ◌==◌, if◌then◌else◌}
use vxapigateway.Prelude.Bytes.{Bytes, codes}
use vxapigateway.Backend.{record_failure}
use vxapigateway.Pool.{Pick, panics, nil, picked}
use vxapigateway.Breaker.{Verdict, rejected, failed, succeeded}
use vxapigateway.Recorder.{Writer}
use vxapigateway.Gateway.{Attempt}
use vxapigateway.Gateway.Exchange.{
  Exchange, Trial, finished, broken, panicked, exhausted, on_backend, pool_peer, guarded, go_on,
  after_failure, after_verdict, try_attempts,
}

abbrev pub Holds : (Exchange → Type 0) → Trial → Type 0
Holds P (finished x) = P x
Holds P (broken x) = P x
Holds P (panicked x) = P x
Holds P (exhausted error x) = P x

if-Holds :
    (P : Exchange → Type 0) (b : Bool) (t u : Trial)
    → Holds P t
    → Holds P u
    → Holds P (if b then t else u)
if-Holds P true t u h k = h
if-Holds P false t u h k = k

go_on-Holds :
    (P : Exchange → Type 0) (pick : Pick) (i : ℕ) (x : Exchange) (continue : ℕ → Exchange → Trial)
    → ((j : ℕ) (y : Exchange) → P y → Holds P (continue j y))
    → P x
    → Holds P (go_on pick i x continue)
unfolding go_on
go_on-Holds P panics i x continue next h = h
go_on-Holds P nil i x continue next h = next i x h
go_on-Holds P (picked j) i x continue next h = next j x h

module _ (first_byte : Bytes → ℕ) (writer : Writer) (ip : Bytes) (pool timeout : ℕ) where
  -- Each step of the loop keeps `P`.
  pub record IsKept (P : Exchange → Type 0) : Type 0 where
    pub by_call :
        (a : Attempt) (i : ℕ) (x : Exchange)
        → P x
        → P (guarded first_byte writer ip pool timeout a i x).1
    pub by_failure : (now i : ℕ) (x : Exchange) → P x → P (on_backend pool i (record_failure now) x)
    pub by_peer :
        (x : Exchange) → P x → P (record x { router = (pool_peer first_byte ip pool x.router).1 })

  after_failure-Holds :
      (P : Exchange → Type 0)
      → IsKept P
      → (left : ℕ) (a : Attempt) (error : Bytes) (i : ℕ) (x : Exchange)
        (continue : ℕ → Exchange → Trial)
      → ((j : ℕ) (y : Exchange) → P y → Holds P (continue j y))
      → P x
      → Holds P (after_failure first_byte writer ip pool timeout left a error i x continue)
  unfolding after_failure
  after_failure-Holds P kept left a error i x continue next h =
      let noted = on_backend pool i (record_failure a.noted) x in
      let p = kept.by_failure a.noted i x h in
      let peer = pool_peer first_byte ip pool noted.router in
      let q =
        go_on-Holds P peer.0 i (record noted { router = peer.1 }) continue next
          (kept.by_peer noted p) in
      if-Holds P noted.recorder.committed (broken noted)
        (if left == 0
          then exhausted error noted
          else go_on peer.0 i (record noted { router = peer.1 }) continue)
        p
        (if-Holds P (left == 0) (exhausted error noted)
          (go_on peer.0 i (record noted { router = peer.1 }) continue) p q)

  after_verdict-Holds :
      (P : Exchange → Type 0)
      → IsKept P
      → (v : Verdict Bytes) (left : ℕ) (a : Attempt) (i : ℕ) (x : Exchange)
        (continue : ℕ → Exchange → Trial)
      → ((j : ℕ) (y : Exchange) → P y → Holds P (continue j y))
      → P x
      → Holds P (after_verdict first_byte writer ip pool timeout v left a i x continue)
  unfolding after_verdict
  after_verdict-Holds P kept succeeded left a i x continue next h = h
  after_verdict-Holds P kept rejected left a i x continue next h =
      after_failure-Holds P kept left a (codes "circuit breaker is open") i x continue next h
  after_verdict-Holds P kept (failed error) left a i x continue next h =
      after_failure-Holds P kept left a error i x continue next h

  -- What every step keeps holds at the end of the loop.
  pub try_attempts-Holds :
      (P : Exchange → Type 0)
      → IsKept P
      → (attempts : ℕ → Attempt) (left n i : ℕ) (x : Exchange) → P x
      → Holds P (try_attempts first_byte writer ip pool timeout attempts left n i x)
  unfolding try_attempts
  try_attempts-Holds P kept attempts zero n i x h = h
  try_attempts-Holds P kept attempts (suc left) n i x h =
      let ran = guarded first_byte writer ip pool timeout (attempts n) i x in
      after_verdict-Holds P kept ran.0 left (attempts n) i ran.1
        (try_attempts first_byte writer ip pool timeout attempts left (n + 1))
        (λ j y. try_attempts-Holds P kept attempts left (n + 1) j y)
        (kept.by_call (attempts n) i x h)
