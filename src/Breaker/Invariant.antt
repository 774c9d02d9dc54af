-- ===== src/Breaker/Invariant.antt =====
-- The failure count and the state of a breaker agree.
use vxapigateway.Prelude.{ℕ, ◌<◌, ◌≡◌, ◌≢◌, refl, inl, inr, Option, none, some, arith, Option-cases}
use vxapigateway.Prelude.Word.{half_modulus}
use vxapigateway.Breaker.{
  State, closed, open_, half_open, CircuitBreaker, enter, on_error, on_success, settle, call,
  new_circuit_breaker,
}

-- While calls go through, fewer failures than the limit are on record; an open breaker has reached
-- it. The limit is a positive `int`.
pub record IsValid (cb : CircuitBreaker) : Type 0 where
  pub positive : 0 < cb.max_failures
  pub fits : cb.max_failures < half_modulus
  pub below : cb.state ≢ open_ → cb.failures < cb.max_failures
  pub reached : cb.state ≡ open_ → cb.failures ≡ cb.max_failures

pub new_circuit_breaker-IsValid :
    (m t : ℕ) → 0 < m → m < half_modulus → IsValid (new_circuit_breaker m t)
unfolding new_circuit_breaker
new_circuit_breaker-IsValid m t h k = ground arith

on_error-IsValid :
    (now : ℕ) (cb : CircuitBreaker) → IsValid cb → cb.state ≢ open_ → IsValid (on_error now cb)
unfolding on_error
on_error-IsValid now cb v h = ground (arith, v.below h)

on_success-IsValid : (cb : CircuitBreaker) → IsValid cb → cb.state ≢ open_ → IsValid (on_success cb)
unfolding on_success
on_success-IsValid cb v h = ground arith

enter-IsValid :
    (now : ℕ) (cb cb' : CircuitBreaker) (s : State)
    → cb.state ≡ s
    → IsValid cb
    → enter now cb s ≡ some cb'
    → IsValid cb' × (cb'.state ≢ open_)
unfolding enter
enter-IsValid now cb cb' closed h v e = ground arith
enter-IsValid now cb cb' half_open h v e = ground arith
enter-IsValid now cb cb' open_ h v e = ground arith

module _ {ℓ κ} {E : Type ℓ} {W : Type κ} where
  settle-IsValid :
      (now : ℕ) (cb : CircuitBreaker) (o : Option E) (w : W)
      → IsValid cb × (cb.state ≢ open_)
      → IsValid (settle now cb o w).2
  unfolding settle
  settle-IsValid now cb none w (v, h) = on_success-IsValid cb v h
  settle-IsValid now cb (some e) w (v, h) = on_error-IsValid now cb v h

  -- Every call of a valid breaker leaves it valid, with the count and the state in agreement,
  -- whatever the function does.
  pub call-IsValid :
      (now later : ℕ) (fn : W → Option E × W) (w : W) (cb : CircuitBreaker)
      → IsValid cb
      → IsValid (call now later fn w cb).2
  unfolding call
  call-IsValid now later fn w cb v = elim (Option-cases (enter now cb cb.state)) [
    | inl e ↦ rw (e, call) v
    | inr (cb', e) ↦
        rw (e, call)
          (settle-IsValid later cb' (fn w).0 (fn w).1 (enter-IsValid now cb cb' cb.state refl v e))
  ]
