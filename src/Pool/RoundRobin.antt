-- ===== src/Pool/RoundRobin.antt =====
-- `roundRobin`: which backend a call takes, and how calls share the backends out.
use native.Mathlib.Nat.{mod-eq_of_lt}
use vxapigateway.Prelude.{
  ℕ, zero, suc, ◌+◌, ◌%◌, ◌<◌, ◌≡◌, refl, sym, ap, ◌∙◌, true, length, arith, All, subst,
}
use vxapigateway.Prelude.Bytes.{Bytes, codes}
use vxapigateway.Prelude.Word.{half_modulus, modulus}
use vxapigateway.Pool.{ServicePool, Pick, picked, round_robin, ip_hash_loop, next_peer}
use vxapigateway.Pool.Cycle.{
  Scan, ip_hash_loop-Scan, round_robin_loop-eq, Scan-start, cover, cover_unique,
}
use vxapigateway.Pool.Dispatch.{next_peer-round_robin}

-- The counter does not reach 2 ^ 63 in the next `n` calls or indices.
abbrev pub HasRoom : ServicePool → ℕ → Type 0
HasRoom p n = p.current + 1 + n < half_modulus

pub round_robin-eq :
    (p : ServicePool)
    → HasRoom p (length p.backends)
    → round_robin p ≡ (
      ip_hash_loop p.backends (p.current + 1) 0 (length p.backends),
      record p { current = p.current + 1 },
    )
unfolding round_robin
round_robin-eq p room =
    rw
      (
        mod-eq_of_lt small,
        round_robin_loop-eq p.backends (p.current + 1) 0 (length p.backends) (omega arith)
            (omega arith),
      )
      refl
  where
    small : p.current + 1 < modulus
    small = omega arith

module _ (first_byte : Bytes → ℕ) where
  -- A call of a round-robin pool with a backend, its counter in range of int, takes the first alive
  -- backend, in cyclic order, behind the position that the counter stands at, and nothing only if
  -- no backend is alive; the counter goes up by one.
  pub next_peer-round_robin_first :
      (p : ServicePool) (client_ip : Bytes)
      → p.algo ≡ codes "round-robin"
      → 0 < length p.backends
      → HasRoom p (length p.backends)
      → Scan p.backends (p.current + 1) 0 (length p.backends) (next_peer first_byte p client_ip).0
        × ((next_peer first_byte p client_ip).1 ≡ record p { current = p.current + 1 })
  next_peer-round_robin_first p client_ip algo some_backend room =
      let e =
        next_peer-round_robin first_byte p client_ip some_backend algo ∙ round_robin-eq p room in
      (
        subst
            (λ (r : Pick × ServicePool). Scan p.backends (p.current + 1) 0 (length p.backends) r.0)
            (sym e)
            (ip_hash_loop-Scan p.backends (p.current + 1) some_backend 0 (length p.backends)),
        ap (λ (r : Pick × ServicePool). r.1) e,
      )

  -- The pool after a number of calls; `clients i` makes the call number `i`.
  pub after_calls : (ℕ → Bytes) → ServicePool → ℕ → ServicePool
  after_calls clients p zero = p
  after_calls clients p (suc i) = (next_peer first_byte (after_calls clients p i) (clients i)).1

  -- What the call number `i` selects.
  pub nth_peer : (ℕ → Bytes) → ServicePool → ℕ → Pick
  nth_peer clients p i = (next_peer first_byte (after_calls clients p i) (clients i)).0

  module _ (clients : ℕ → Bytes) (p : ServicePool) (algo : p.algo ≡ codes "round-robin")
      (some_backend : 0 < length p.backends) where
    after_calls-current :
        (i : ℕ)
        → HasRoom p (i + length p.backends)
        → after_calls clients p i ≡ record p { current = p.current + i }
    unfolding after_calls
    after_calls-current zero room = ap (λ c. record p { current = c }) (omega arith)
    after_calls-current (suc i) room =
        let q = record p { current = p.current + i } in
        let ih = after_calls-current i (omega arith) in
        ap (λ r. (next_peer first_byte r (clients i)).1) ih
        ∙ (next_peer-round_robin_first q (clients i) algo some_backend (omega arith)).1
        ∙ ap (λ c. record p { current = c }) (omega arith)

    nth_peer-position :
        (i : ℕ)
        → HasRoom p (i + length p.backends)
        → All (λ b. b.alive ≡ true) p.backends
        → nth_peer clients p i ≡ picked ((p.current + 1 + i) % length p.backends)
    unfolding nth_peer
    nth_peer-position i room alive =
        let q = record p { current = p.current + i } in
        ap (λ r. (next_peer first_byte r (clients i)).0) (after_calls-current i room)
        ∙ Scan-start p.backends (p.current + i + 1) _ some_backend alive
            (next_peer-round_robin_first q (clients i) algo some_backend (omega arith)).0
        ∙ ap (λ c. picked (c % length p.backends)) (omega arith)

  -- With the counter of a round-robin pool in range of int, while every backend is alive: exactly
  -- one of as many consecutive calls as there are backends goes to the backend at position `t`,
  -- whoever makes the calls and whatever the weights.
  pub next_peer-round_robin_fair :
      (clients : ℕ → Bytes) (p : ServicePool) (t : ℕ)
      → p.algo ≡ codes "round-robin"
      → All (λ b. b.alive ≡ true) p.backends
      → HasRoom p (length p.backends + length p.backends)
      → t < length p.backends
      → (i : ℕ) × (i < length p.backends)
        × (nth_peer clients p i ≡ picked t)
        × ((j : ℕ) → j < length p.backends → nth_peer clients p j ≡ picked t → j ≡ i)
  next_peer-round_robin_fair clients p t algo alive room lt =
      let n = length p.backends in
      let at = λ (i : ℕ) (h : i < n).
        nth_peer-position clients p algo (omega arith) i (omega arith) alive in
      let (i, below, e) = cover (p.current + 1) n t lt in
      (
        i,
        below,
        at i below ∙ ap picked e,
        λ j h same. cover_unique (p.current + 1) n j i h below (cc (at j h, e)),
      )
