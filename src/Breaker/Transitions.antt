-- ===== src/Breaker/Transitions.antt =====
-- When a breaker lets calls through, trips, and recovers.
use vxapigateway.Prelude.{
  ℕ, ◌+◌, ◌-◌, ◌≤◌, ◌<◌, ◌≡◌, ◌≢◌, ◌↔◌, refl, ap, ap₂, ◌∙◌, ◌⊎◌, inl, inr, Option, none, some, List,
  [], ◌∷◌, arith, All, length, ltb, if◌then◌else◌, Option-cases,
}
use vxapigateway.Prelude.Word.{half_modulus}
use vxapigateway.Breaker.{
  State, closed, open_, half_open, CircuitBreaker, Verdict, rejected, enter, on_error, on_success,
  settle, call,
}
use vxapigateway.Breaker.Invariant.{IsValid, call-IsValid}

-- The breaker is open and its timeout, which is not negative, has not passed.
abbrev pub IsShut : ℕ → CircuitBreaker → Type 0
IsShut now cb =
    (cb.state ≡ open_)
    × (cb.reset_timeout < half_modulus)
    × (now - cb.last_fail_time ≤ cb.reset_timeout)

enter-none_iff :
    (now : ℕ) (cb : CircuitBreaker) (s : State)
    → cb.state ≡ s
    → (enter now cb s ≡ none) ↔ IsShut now cb
unfolding enter
enter-none_iff now cb closed h = ground arith
enter-none_iff now cb half_open h = ground arith
enter-none_iff now cb open_ h = ground arith

-- One call of a program: when it starts, when its function returns, and the function.
pub record Attempt {ℓ κ} (E : Type ℓ) (W : Type κ) : Type (ℓ ⊔ κ) where
  pub now : ℕ
  pub later : ℕ
  pub fn : W → Option E × W

module _ {ℓ κ} {E : Type ℓ} {W : Type κ} where
  settle-ran :
      (later : ℕ) (cb : CircuitBreaker) (o : Option E) (w : W)
      → ((settle later cb o w).0 ≢ rejected) × ((settle later cb o w).1 ≡ w)
  unfolding settle
  settle-ran later cb none w = ((λ e. cc), refl)
  settle-ran later cb (some x) w = ((λ e. cc), refl)

  -- A call leaves the world to the function, or as it was.
  pub call-world :
      (now later : ℕ) (fn : W → Option E × W) (w : W) (cb : CircuitBreaker)
      → ((call now later fn w cb).1 ≡ w) ⊎ ((call now later fn w cb).1 ≡ (fn w).1)
  unfolding call
  call-world now later fn w cb = elim (Option-cases (enter now cb cb.state)) [
    | inl e ↦ inl (rw (e, call) refl)
    | inr (cb', e) ↦ inr (rw (e, call) (settle-ran later cb' (fn w).0 (fn w).1).1)
  ]

  -- A call is rejected exactly while the breaker is shut. Then the function is not run and the
  -- breaker stays as it is; otherwise the function is run once.
  pub call-rejected_iff :
      (now later : ℕ) (fn : W → Option E × W) (w : W) (cb : CircuitBreaker)
      → (((call now later fn w cb).0 ≡ rejected) ↔ IsShut now cb)
        × (IsShut now cb → call now later fn w cb ≡ (rejected, w, cb))
        × (¬ IsShut now cb → (call now later fn w cb).1 ≡ (fn w).1)
  unfolding call
  call-rejected_iff now later fn w cb = elim (Option-cases (enter now cb cb.state)) [
    | inl e ↦
        let shut = (enter-none_iff now cb cb.state refl).0 e in
        (
          (λ _. shut, λ _. rw (e, call) refl),
          λ _. rw (e, call) refl,
          λ passing. absurd (passing shut),
        )
    | inr (cb', e) ↦
        let ran = settle-ran later cb' (fn w).0 (fn w).1 in
        let passing : ¬ IsShut now cb =
          λ shut. ground (arith, (enter-none_iff now cb cb.state refl).1 shut) in
        (
          (λ r. absurd (ran.0 (rw (e, call) at r)), λ shut. absurd (passing shut)),
          λ shut. absurd (passing shut),
          λ _. rw (e, call) ran.1,
        )
  ]

  -- The world and the breaker after a sequence of calls.
  pub after : List (Attempt E W) → W → CircuitBreaker → W × CircuitBreaker
  after [] w cb = (w, cb)
  after (a ∷ attempts) w cb = let ran = call a.now a.later a.fn w cb in after attempts ran.1 ran.2

  -- While the timeout of an open breaker lasts, no sequence of calls runs a function or changes the
  -- breaker.
  pub after_shut :
      (attempts : List (Attempt E W)) (w : W) (cb : CircuitBreaker)
      → cb.state ≡ open_
      → cb.reset_timeout < half_modulus
      → All (λ (a : Attempt E W). a.now ≤ cb.last_fail_time + cb.reset_timeout) attempts
      → after attempts w cb ≡ (w, cb)
  unfolding after
  after_shut [] w cb opened fits early = refl
  after_shut (a ∷ attempts) w cb opened fits (soon, early) =
      let shut = (call-rejected_iff a.now a.later a.fn w cb).1 (opened, fits, omega arith) in
      ap (λ (r : Verdict E × W × CircuitBreaker). after attempts r.1 r.2) shut
      ∙ after_shut attempts w cb opened fits early

  abbrev pub AlwaysFails : (W → Option E × W) → Type (ℓ ⊔ κ)
  AlwaysFails fn = (w : W) → (e : E) × ((fn w).0 ≡ some e)

  call_failing_closed :
      (now later : ℕ) (fn : W → Option E × W) (w : W) (cb : CircuitBreaker) (e : E)
      → IsValid cb
      → cb.state ≡ closed
      → (fn w).0 ≡ some e
      → ((call now later fn w cb).2.failures ≡ cb.failures + 1)
        × ((call now later fn w cb).2.max_failures ≡ cb.max_failures)
        × ((call now later fn w cb).2.state
            ≡ (if ltb (cb.failures + 1) cb.max_failures then closed else open_))
  unfolding call enter settle on_error
  call_failing_closed now later fn w cb e v shut fails = ground (arith, v.below)

  -- A valid closed breaker, through calls whose functions all fail, as many as its limit leaves
  -- room for: every failure is counted, and the breaker is open behind them exactly if the count
  -- has reached the limit.
  pub after_failing :
      (attempts : List (Attempt E W)) (w : W) (cb : CircuitBreaker)
      → IsValid cb
      → cb.state ≡ closed
      → All (λ (a : Attempt E W). AlwaysFails a.fn) attempts
      → cb.failures + length attempts ≤ cb.max_failures
      → ((after attempts w cb).1.failures ≡ cb.failures + length attempts)
        × ((after attempts w cb).1.state
            ≡ (if ltb (cb.failures + length attempts) cb.max_failures then closed else open_))
  unfolding after
  after_failing [] w cb v shut fails room = ground (arith, v.below)
  after_failing (a ∷ []) w cb v shut (fail, fails) room =
      ground (arith, call_failing_closed a.now a.later a.fn w cb (fail w).0 v shut (fail w).1)
  after_failing (a ∷ b ∷ attempts) w cb v shut (fail, fails) room =
      let (count, limit, state) =
        call_failing_closed a.now a.later a.fn w cb (fail w).0 v shut (fail w).1 in
      let ran = call a.now a.later a.fn w cb in
      let below : cb.failures + 1 < cb.max_failures = omega arith in
      let (count', state') =
        after_failing (b ∷ attempts) ran.1 ran.2 (call-IsValid a.now a.later a.fn w cb v)
          (state ∙ ground arith) fails (omega arith) in
      let sum : ran.2.failures + length (b ∷ attempts) ≡ cb.failures + length (a ∷ b ∷ attempts) =
        omega arith in
      (count' ∙ sum, state' ∙ ap₂ (λ x y. if ltb x y then closed else open_) sum limit)

  -- The first call after the timeout of an open breaker, its limit a positive int, closes it if the
  -- function succeeds. If it fails, the breaker opens again only if the limit is one failure; with
  -- a higher limit it stays half-open, with one failure on record.
  pub call_after_timeout :
      (now later : ℕ) (fn : W → Option E × W) (w : W) (cb : CircuitBreaker)
      → cb.state ≡ open_
      → cb.reset_timeout < now - cb.last_fail_time
      → 0 < cb.max_failures
      → cb.max_failures < half_modulus
      → let next = (call now later fn w cb).2 in
        ((fn w).0 ≡ none → (next.state ≡ closed) × (next.failures ≡ 0))
        × ((e : E)
            → (fn w).0 ≡ some e
            → (next.state ≡ (if ltb 1 cb.max_failures then half_open else open_))
              × (next.failures ≡ 1))
  unfolding call enter settle on_error on_success
  call_after_timeout now later fn w cb opened late positive fits =
      (λ fine. ground arith, λ e fails. ground arith)
