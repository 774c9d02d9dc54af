-- ===== src/Breaker.antt =====
-- The CircuitBreaker of middleware.go. `Call` holds the mutex from its first line to its return, so
-- a call is one step, also while other goroutines call.
pub mod Invariant
pub mod Transitions
mod Tests
use vxapigateway.Prelude.{
  ℕ, ◌+◌, ◌-◌, ◌≡◌, Bool, true, false, ◌||◌, Option, none, some, ltb, if◌then◌else◌,
}
use vxapigateway.Prelude.Word.{add64, slt, is_negative}

pub data State : Type 0 where
  closed open_ half_open : State

-- `max_failures` and `failures` are 64-bit patterns. `trips` is the counter of the process,
-- `circuit_breaker_trips_total`.
pub record CircuitBreaker : Type 0 where
  pub max_failures : ℕ
  pub reset_timeout : ℕ
  pub failures : ℕ
  pub last_fail_time : ℕ
  pub state : State
  pub trips : ℕ

unfoldable pub new_circuit_breaker : ℕ → ℕ → CircuitBreaker
new_circuit_breaker max_failures reset_timeout = record {
  max_failures = max_failures;
  reset_timeout = reset_timeout;
  failures = 0;
  last_fail_time = 0;
  state = closed;
  trips = 0;
}

-- What `Call` returns: its own error, that of `fn`, or nil.
pub data Verdict {ℓ} (E : Type ℓ) : Type ℓ where
  rejected : Verdict E
  failed : E → Verdict E
  succeeded : Verdict E

-- The first part of `Call`, up to `fn()`; `none` is the early return. `reset_timeout` is a 64-bit
-- pattern; the time that has passed is not negative.
unfoldable pub enter : ℕ → CircuitBreaker → State → Option CircuitBreaker
enter now cb closed = some cb
enter now cb half_open = some cb
enter now cb open_ =
    if is_negative cb.reset_timeout || ltb cb.reset_timeout (now - cb.last_fail_time)
    then some (record cb { state = half_open; failures = 0 })
    else none

-- The branch of `Call` for an error of `fn`.
unfoldable pub on_error : ℕ → CircuitBreaker → CircuitBreaker
on_error now cb =
    let counted = record cb { failures = add64 cb.failures 1; last_fail_time = now } in
    if slt counted.failures counted.max_failures
    then counted
    else record counted { state = open_; trips = counted.trips + 1 }

abbrev pub close_half_open : State → State
close_half_open half_open = closed
close_half_open s = s

-- The rest of `Call`.
unfoldable pub on_success : CircuitBreaker → CircuitBreaker
on_success cb = record cb { state = close_half_open cb.state; failures = 0 }

module _ {ℓ κ} {E : Type ℓ} {W : Type κ} where
  -- What `Call` makes of the outcome of `fn`, which has left the world as `w`.
  unfoldable pub settle : ℕ → CircuitBreaker → Option E → W → Verdict E × W × CircuitBreaker
  settle now cb none w = (succeeded, w, on_success cb)
  settle now cb (some e) w = (failed e, w, on_error now cb)

  -- `Call` at the time `now`; `fn` acts on the world, and returns at the time `later`.
  unfoldable pub call :
      ℕ → ℕ → (W → Option E × W) → W → CircuitBreaker → Verdict E × W × CircuitBreaker
  unfolding settle
  call now later fn w cb = elim (enter now cb cb.state) [
    | none ↦ (rejected, w, cb)
    | some entered ↦ let ran = fn w in settle later entered ran.0 ran.1
  ]
