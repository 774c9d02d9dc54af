-- ===== src/Gateway/Room.antt =====
-- The counters of the pools stay in range over the attempts of a request, so nothing panics.
use vxapigateway.Prelude.{
  ℕ, zero, suc, ◌+◌, ◌≤◌, ◌<◌, ◌≡◌, refl, ap, Bool, true, false, List, [], ◌∷◌, some, get_elem?,
  get_elem?-some_of_lt, modify, length, length-modify, All, All-get_elem?, arith, if◌then◌else◌,
  ◌==◌,
}
use vxapigateway.Prelude.Bytes.{Bytes, codes}
use vxapigateway.Backend.{Backend, inc_connections, dec_connections, record_failure}
use vxapigateway.Pool.{ServicePool, Pick, panics, nil, picked, next_peer, update_backend}
use vxapigateway.Pool.RoundRobin.{HasRoom}
use vxapigateway.Pool.Total.{IsPanic, next_peer-total, next_peer-backends, next_peer-current}
use vxapigateway.Router.{ServiceRouter}
use vxapigateway.Breaker.{Verdict, rejected, failed, succeeded}
use vxapigateway.Recorder.{Writer}
use vxapigateway.Gateway.{Attempt}
use vxapigateway.Gateway.Exchange.{
  Exchange, Trial, finished, broken, panicked, exhausted, update_pool, on_backend, pool_peer, go_on,
  proxy, guarded, after_failure, after_verdict, try_attempts,
}
use vxapigateway.Gateway.Retry.{guarded-keeps}

-- Each pool can serve `k` more calls of `NextPeer`.
abbrev pub HasCalls : ℕ → ServicePool → Type 0
HasCalls k p = HasRoom p (length p.backends + k)

abbrev pub AllHaveCalls : ℕ → ServiceRouter → Type 0
AllHaveCalls k sr = All (HasCalls k) sr.pools

All-modify :
    {P Q : ServicePool → Type 0} (ps : List ServicePool) (i : ℕ) (f : ServicePool → ServicePool)
    → ((p : ServicePool) → P p → Q p)
    → ((p : ServicePool) → get_elem? ps i ≡ some p → P p → Q (f p))
    → All P ps
    → All Q (modify ps i f)
All-modify [] i f keep change h = tt
All-modify {P} {Q} (p ∷ ps) zero f keep change (h, hs) = (change p refl h, rest ps hs)
  where
    rest : (qs : List ServicePool) → All P qs → All Q qs
    rest [] h = tt
    rest (q ∷ qs) (h, hs) = (keep q h, rest qs hs)
All-modify (p ∷ ps) (suc i) f keep change (h, hs) = (keep p h, All-modify ps i f keep change hs)

update_backend-HasCalls :
    (k i : ℕ) (f : Backend → Backend) (p : ServicePool)
    → HasCalls k p
    → HasCalls k (update_backend i f p)
update_backend-HasCalls k i f p h = omega (arith, length-modify p.backends i f)

update_pool-calls :
    (k pool i : ℕ) (f : Backend → Backend) (sr : ServiceRouter)
    → AllHaveCalls k sr
    → AllHaveCalls k (update_pool pool (update_backend i f) sr)
update_pool-calls k pool i f sr h =
    All-modify sr.pools pool (update_backend i f) (λ p g. g)
      (λ p e g. update_backend-HasCalls k i f p g) h

-- A pool of the router that has calls left.
pub record IsReady (pool k : ℕ) (sr : ServiceRouter) : Type 0 where
  pub linked : pool < length sr.pools
  pub calls : AllHaveCalls k sr

pub pool_peer-IsReady :
    (first_byte : Bytes → ℕ) (ip : Bytes) (pool k : ℕ) (sr : ServiceRouter)
    → IsReady pool (k + 1) sr
    → (¬ IsPanic (pool_peer first_byte ip pool sr).0)
      × IsReady pool k (pool_peer first_byte ip pool sr).1
unfolding pool_peer
pool_peer-IsReady first_byte ip pool k sr h =
    let (p, at) = get_elem?-some_of_lt sr.pools pool h.linked in
    let next = (next_peer first_byte p ip).1 in
    let room = All-get_elem? (HasCalls (k + 1)) sr.pools pool p h.calls at in
    let left : HasCalls k next = omega (
      arith,
      room,
      next_peer-current first_byte p ip,
      ap length (next_peer-backends first_byte p ip),
    ) in
    rw (at, pool_peer)
      (
        next_peer-total first_byte p ip (omega (arith, room)),
        record {
          linked = omega (arith, length-modify sr.pools pool (λ _. next), h.linked);
          calls =
              All-modify {P = HasCalls (k + 1)} sr.pools pool (λ _. next) (λ q g. omega (arith, g))
                (λ q e g. left) h.calls;
        },
      )

IsReady-update_pool :
    (pool k j i : ℕ) (f : Backend → Backend) (sr : ServiceRouter)
    → IsReady pool k sr
    → IsReady pool k (update_pool j (update_backend i f) sr)
IsReady-update_pool pool k j i f sr h = record {
  linked = omega (arith, length-modify sr.pools j (update_backend i f), h.linked);
  calls = update_pool-calls k j i f sr h.calls;
}

pub AllHaveCalls-weaken :
    (m n : ℕ) (ps : List ServicePool) → m ≤ n → All (HasCalls n) ps → All (HasCalls m) ps
AllHaveCalls-weaken m n [] le h = tt
AllHaveCalls-weaken m n (p ∷ ps) le (h, hs) = (omega (arith, h), AllHaveCalls-weaken m n ps le hs)

pub IsReady-weaken :
    (pool m n : ℕ) (sr : ServiceRouter) → m ≤ n → IsReady pool n sr → IsReady pool m sr
IsReady-weaken pool m n sr le h = record {
  linked = h.linked;
  calls = AllHaveCalls-weaken m n sr.pools le h.calls;
}

module _ (pool k : ℕ) where
  -- The loop ends without a panic, and leaves the pools `k` calls.
  abbrev pub IsFine : Trial → Type 0
  IsFine (finished x) = IsReady pool k x.router
  IsFine (broken x) = IsReady pool k x.router
  IsFine (panicked x) = ⊥
  IsFine (exhausted error x) = IsReady pool k x.router

  go_on-IsFine :
      (pick : Pick) (i : ℕ) (x : Exchange) (continue : ℕ → Exchange → Trial)
      → ¬ IsPanic pick
      → ((j : ℕ) → IsFine (continue j x))
      → IsFine (go_on pick i x continue)
  unfolding go_on
  go_on-IsFine panics i x continue h next = h tt
  go_on-IsFine nil i x continue h next = next i
  go_on-IsFine (picked j) i x continue h next = next j

  if-IsFine : (b : Bool) (t u : Trial) → IsFine t → IsFine u → IsFine (if b then t else u)
  if-IsFine true t u h g = h
  if-IsFine false t u h g = g

module _ (first_byte : Bytes → ℕ) (writer : Writer) (ip : Bytes) (pool timeout k : ℕ) where
  guarded-IsReady :
      (m : ℕ) (a : Attempt) (i : ℕ) (x : Exchange)
      → IsReady pool m x.router
      → IsReady pool m (guarded first_byte writer ip pool timeout a i x).1.router
  unfolding proxy
  guarded-IsReady m a i x h =
      guarded-keeps first_byte writer ip pool timeout (λ y. IsReady pool m y.router) (λ y cb g. g) a
        i x
        (λ g.
          IsReady-update_pool pool m pool i dec_connections _
            (IsReady-update_pool pool m pool i inc_connections x.router g))
        h

  after_failure-IsFine :
      (m left : ℕ) (a : Attempt) (error : Bytes) (i : ℕ) (x : Exchange)
      (continue : ℕ → Exchange → Trial)
      → k ≤ m
      → IsReady pool (m + 1) x.router
      → ((j : ℕ) (y : Exchange) → IsReady pool m y.router → IsFine pool k (continue j y))
      → IsFine pool k (after_failure first_byte writer ip pool timeout left a error i x continue)
  unfolding after_failure
  after_failure-IsFine m left a error i x continue le h next =
      let noted = on_backend pool i (record_failure a.noted) x in
      let still = IsReady-update_pool pool (m + 1) pool i (record_failure a.noted) x.router h in
      let (fine, ready) = pool_peer-IsReady first_byte ip pool m noted.router still in
      let peer = pool_peer first_byte ip pool noted.router in
      let moved = record noted { router = peer.1 } in
      let kept = IsReady-weaken pool k (m + 1) noted.router (omega (arith, le)) still in
      if-IsFine pool k noted.recorder.committed (broken noted) _ kept (
        if-IsFine pool k (left == 0) (exhausted error noted) _ kept
          (go_on-IsFine pool k peer.0 i moved continue fine (λ j. next j moved ready)))

  after_verdict-IsFine :
      (v : Verdict Bytes) (m left : ℕ) (a : Attempt) (i : ℕ) (x : Exchange)
      (continue : ℕ → Exchange → Trial)
      → k ≤ m
      → IsReady pool (m + 1) x.router
      → ((j : ℕ) (y : Exchange) → IsReady pool m y.router → IsFine pool k (continue j y))
      → IsFine pool k (after_verdict first_byte writer ip pool timeout v left a i x continue)
  unfolding after_verdict
  after_verdict-IsFine succeeded m left a i x continue le h next =
      IsReady-weaken pool k (m + 1) x.router (omega (arith, le)) h
  after_verdict-IsFine rejected m left a i x continue le h next =
      after_failure-IsFine m left a (codes "circuit breaker is open") i x continue le h next
  after_verdict-IsFine (failed error) m left a i x continue le h next =
      after_failure-IsFine m left a error i x continue le h next

  pub try_attempts-IsFine :
      (attempts : ℕ → Attempt) (left n i : ℕ) (x : Exchange)
      → IsReady pool (left + k) x.router
      → IsFine pool k (try_attempts first_byte writer ip pool timeout attempts left n i x)
  unfolding try_attempts
  try_attempts-IsFine attempts zero n i x h = IsReady-weaken pool k (0 + k) x.router (omega arith) h
  try_attempts-IsFine attempts (suc left) n i x h =
      let ran = guarded first_byte writer ip pool timeout (attempts n) i x in
      let ready = IsReady-weaken pool (left + k + 1) (suc left + k) x.router (omega arith) h in
      after_verdict-IsFine ran.0 (left + k) left (attempts n) i ran.1
        (try_attempts first_byte writer ip pool timeout attempts left (n + 1)) (omega arith)
        (guarded-IsReady (left + k + 1) (attempts n) i x ready)
        (λ j y g. try_attempts-IsFine attempts left (n + 1) j y g)
