-- ===== src/Gateway/Attempts.antt =====
-- How often a request is tried.
use mathlib.Core.Path.{fun_ext}
use vxapigateway.Prelude.{
  ℕ, zero, suc, ◌+◌, ◌<◌, ◌≡◌, refl, ap, ap₂, subst, ◌∙◌, true, Option, arith,
}
use vxapigateway.Prelude.Bytes.{Bytes, codes}
use vxapigateway.Router.{MatchedRoute}
use vxapigateway.Breaker.{Verdict, rejected, failed, succeeded}
use vxapigateway.Recorder.{Writer}
use vxapigateway.Client.{Request}
use vxapigateway.Gateway.{Services, Surroundings, Attempt, Gateway}
use vxapigateway.Gateway.Exchange.{
  Exchange, Trial, guarded, after_failure, after_verdict, try_attempts,
}
use vxapigateway.Gateway.Serve.{effective_timeout, begin, finish, run_attempts}

add_zero : (n : ℕ) → n + 0 ≡ n
add_zero n = omega arith

add_suc : (n k : ℕ) → n + suc k ≡ n + 1 + k
add_suc n k = omega arith

module _ (first_byte : Bytes → ℕ) (writer : Writer) (ip : Bytes) (pool timeout : ℕ) where
  -- The loop looks at `left` attempts, from number `n` on.
  pub try_attempts-agree :
      (attempts others : ℕ → Attempt) (left n : ℕ)
      → ((k : ℕ) → k < left → others (n + k) ≡ attempts (n + k))
      → try_attempts first_byte writer ip pool timeout others left n
        ≡ try_attempts first_byte writer ip pool timeout attempts left n
  unfolding try_attempts
  try_attempts-agree attempts others zero n same = refl
  try_attempts-agree attempts others (suc left) n same =
      let here : others n ≡ attempts n =
        subst (λ k. others k ≡ attempts k) (add_zero n) (same 0 (omega arith)) in
      let later =
        try_attempts-agree attempts others left (n + 1)
          (λ k h. subst (λ j. others j ≡ attempts j) (add_suc n k) (same (suc k) (omega arith))) in
      fun_ext (λ i. fun_ext (λ x.
        ap₂
          (λ a continue.
            after_verdict first_byte writer ip pool timeout
              (guarded first_byte writer ip pool timeout a i x).0 left a i
              (guarded first_byte writer ip pool timeout a i x).1 continue)
          here later))

-- At most three attempts are made: whatever would happen at a fourth one has no effect.
pub run_attempts-three :
    (services : Services) (s : Surroundings) (others : ℕ → Attempt)
    → ((k : ℕ) → k < 3 → others k ≡ s.attempts k)
    → (m : MatchedRoute) (i : ℕ) (ip : Bytes) (c : Option Bytes) (r : Request)
      (g : Gateway services)
    → run_attempts services (record s { attempts = others }) m i ip c r g
      ≡ run_attempts services s m i ip c r g
unfolding run_attempts finish
run_attempts-three services s others same m i ip c r g =
    ap (λ loop. finish services s c g (loop i (begin services s m r g)))
      (try_attempts-agree services.first_byte s.writer ip m.pool
        (effective_timeout m.timeout g.config) s.attempts others 3 0
        (λ k h. subst (λ j. others j ≡ s.attempts j) (zero_add k) (same k h)))
  where
    zero_add : (k : ℕ) → k ≡ 0 + k
    zero_add k = omega arith

module _ (first_byte : Bytes → ℕ) (writer : Writer) (ip : Bytes) (pool timeout : ℕ) where
  after_failure-committed :
      (left : ℕ) (a : Attempt) (error : Bytes) (i : ℕ) (x : Exchange)
      (continue continue' : ℕ → Exchange → Trial)
      → x.recorder.committed ≡ true
      → after_failure first_byte writer ip pool timeout left a error i x continue
        ≡ after_failure first_byte writer ip pool timeout left a error i x continue'
  unfolding after_failure
  after_failure-committed left a error i x continue continue' sent = simp (sent, after_failure)

  after_verdict-committed :
      (v : Verdict Bytes) (left : ℕ) (a : Attempt) (i : ℕ) (x : Exchange)
      (continue continue' : ℕ → Exchange → Trial)
      → x.recorder.committed ≡ true
      → after_verdict first_byte writer ip pool timeout v left a i x continue
        ≡ after_verdict first_byte writer ip pool timeout v left a i x continue'
  unfolding after_verdict
  after_verdict-committed succeeded left a i x continue continue' sent = refl
  after_verdict-committed rejected left a i x continue continue' sent =
      after_failure-committed left a (codes "circuit breaker is open") i x continue continue' sent
  after_verdict-committed (failed error) left a i x continue continue' sent =
      after_failure-committed left a error i x continue continue' sent

-- A request is not tried again once its response has begun: if the first attempt leaves the recorder
-- committed, whatever would happen at a later one has no effect.
pub run_attempts-committed :
    (services : Services) (s : Surroundings) (others : ℕ → Attempt)
    → others 0 ≡ s.attempts 0
    → (m : MatchedRoute) (i : ℕ) (ip : Bytes) (c : Option Bytes) (r : Request)
      (g : Gateway services)
    → (guarded services.first_byte s.writer ip m.pool
        (effective_timeout m.timeout g.config)
        (s.attempts 0)
        i
        (begin services s m r g)).1.recorder.committed
      ≡ true
    → run_attempts services (record s { attempts = others }) m i ip c r g
      ≡ run_attempts services s m i ip c r g
unfolding run_attempts finish try_attempts
run_attempts-committed services s others same m i ip c r g sent =
    let timeout = effective_timeout m.timeout g.config in
    let first =
      guarded services.first_byte s.writer ip m.pool timeout (s.attempts 0) i
        (begin services s m r g) in
    let later = try_attempts services.first_byte s.writer ip m.pool timeout s.attempts 2 1 in
    let later' = try_attempts services.first_byte s.writer ip m.pool timeout others 2 1 in
    ap
      (λ a. finish services s c g (
        after_verdict services.first_byte s.writer ip m.pool timeout
          (guarded services.first_byte s.writer ip m.pool timeout a i (begin services s m r g)).0 2
          a i
          (guarded services.first_byte s.writer ip m.pool timeout a i (begin services s m r g)).1
          later'))
      same
    ∙ ap (finish services s c g) (
        after_verdict-committed services.first_byte s.writer ip m.pool timeout first.0 2
          (s.attempts 0) i first.1 later' later sent)
