-- ===== src/Pool/Cycle.antt =====
-- The cyclic scans of `roundRobin` and `ipHash`: the first alive position from a start on.
use native.Mathlib.Decide.{ℕ_discrete}
use native.Mathlib.Nat.{mod-lt, mod-eq_of_lt, add-mod-mod, add-mul-mod_self_left, div-add-mod}
use vxapigateway.Prelude.{
  ℕ, zero, suc, ◌+◌, ◌-◌, ◌*◌, ◌/◌, ◌%◌, ◌≤◌, ◌<◌, ◌≡◌, refl, ap, ◌∙◌, ◌⊎◌, inl, inr, true, false,
  List, some, length, get_elem?, arith, Bool-cases, get_elem?-some_of_lt, get_elem?-lt, subst, All,
  All-get_elem?,
}
use vxapigateway.Prelude.Word.{half_modulus, add64, srem}
use vxapigateway.Backend.{Backend}
use vxapigateway.Pool.{Pick, nil, picked, try_index, round_robin_loop, ip_hash_loop}
use vxapigateway.Pool.Selection.{IsAliveAt}

abbrev pub IsDeadAt : List Backend → ℕ → Type 0
IsDeadAt bs i = (b : Backend) × (get_elem? bs i ≡ some b) × (b.alive ≡ false)

module _ (bs : List Backend) (start : ℕ) where
  -- The first alive position among `rounds` of them, from the `i`-th behind the start on, or none.
  abbrev pub Scan : ℕ → ℕ → Pick → Type 0
  Scan i rounds r =
      ((d : ℕ) × (i ≤ d)
        × (d < i + rounds)
        × (r ≡ picked ((start + d) % length bs))
        × IsAliveAt bs ((start + d) % length bs)
        × ((e : ℕ) → i ≤ e → e < d → IsDeadAt bs ((start + e) % length bs)))
      ⊎ ((r ≡ nil) × ((e : ℕ) → i ≤ e → e < i + rounds → IsDeadAt bs ((start + e) % length bs)))

  Scan-dead :
      (i rounds : ℕ) (r : Pick)
      → IsDeadAt bs ((start + i) % length bs)
      → Scan (i + 1) rounds r
      → Scan i (suc rounds) r
  Scan-dead i rounds r dead (inl (d, lo, hi, e, up, before)) =
      inl (d, omega arith, omega arith, e, up, λ k p q. first k p q)
    where
      first : (k : ℕ) → i ≤ k → k < d → IsDeadAt bs ((start + k) % length bs)
      first k p q = elim (ℕ_discrete i k) [
        | yes same ↦ rw (← same) dead
        | no other ↦ before k (omega arith) q
      ]
  Scan-dead i rounds r dead (inr (e, all)) = inr (e, λ k p q. rest k p q)
    where
      rest : (k : ℕ) → i ≤ k → k < i + suc rounds → IsDeadAt bs ((start + k) % length bs)
      rest k p q = elim (ℕ_discrete i k) [
        | yes same ↦ rw (← same) dead
        | no other ↦ all k (omega arith) (omega arith)
      ]

  pub ip_hash_loop-Scan :
      0 < length bs → (i rounds : ℕ) → Scan i rounds (ip_hash_loop bs start i rounds)
  unfolding ip_hash_loop
  ip_hash_loop-Scan some_backend i zero = inr (refl, λ e p q. absurd (omega arith))
  ip_hash_loop-Scan some_backend i (suc rounds) =
      let (b, at) =
        get_elem?-some_of_lt bs ((start + i) % length bs) (mod-lt (start + i) some_backend) in
      elim (Bool-cases b.alive) [
        | inl up ↦ inl (
          i,
          omega arith,
          omega arith,
          rw (at, try_index, up) refl,
          (b, at, up),
          λ e p q. absurd (omega arith),
        )
        | inr down ↦
            rw (at, try_index, down)
              (Scan-dead i rounds _ (b, at, down) (ip_hash_loop-Scan some_backend (i + 1) rounds))
      ]

  -- Below 2 ^ 63 the conversions of `roundRobin` change nothing.
  pub round_robin_loop-eq :
      (i rounds : ℕ)
      → start + i + rounds < half_modulus
      → length bs < half_modulus
      → round_robin_loop bs start i rounds ≡ ip_hash_loop bs start i rounds
  unfolding round_robin_loop ip_hash_loop
  round_robin_loop-eq i zero h k = refl
  round_robin_loop-eq i (suc rounds) h k =
      rw (round_robin_loop-eq (i + 1) rounds (omega arith) k, index) refl
    where
      index : srem (add64 start i) (length bs) ≡ (start + i) % length bs
      index = ground arith

-- Among `n` consecutive numbers each remainder occurs.
pub cover : (s n t : ℕ) → t < n → (d : ℕ) × (d < n) × ((s + d) % n ≡ t)
cover s n t h = (
  (t + n - s % n) % n,
  mod-lt (t + n - s % n) (omega arith),
  add-mod-mod s (t + n - s % n) n
      ∙ ap (λ x. x % n) regroup
      ∙ add-mul-mod_self_left t n (s / n + 1)
      ∙ mod-eq_of_lt h,
)
  where
    regroup : s + (t + n - s % n) ≡ t + n * (s / n + 1)
    regroup = omega (arith, div-add-mod s n, mod-lt s {m = n} (omega arith))

-- It occurs once.
pub cover_unique : (s n d e : ℕ) → d < n → e < n → (s + d) % n ≡ (s + e) % n → d ≡ e
cover_unique s n d e p q h = grind arith

not-IsDeadAt : (bs : List Backend) (i : ℕ) → All (λ b. b.alive ≡ true) bs → IsDeadAt bs i → ⊥
not-IsDeadAt bs i all (b, at, down) = cc (All-get_elem? (λ b. b.alive ≡ true) bs i b all at, down)

module _ (bs : List Backend) (start : ℕ) where
  -- A scan of the whole pool finds a backend if one is alive.
  pub Scan-picks :
      (r : Pick) (i : ℕ) → Scan bs start 0 (length bs) r → IsAliveAt bs i → (k : ℕ) × (r ≡ picked k)
  Scan-picks r i (inl (d, _, _, e, _, _)) up = ((start + d) % length bs, e)
  Scan-picks r i (inr (_, all)) (b, at, up) =
      let (d, lt, e) = cover start (length bs) i (get_elem?-lt bs i b at) in
      let dead : IsDeadAt bs i = subst (IsDeadAt bs) e (all d (omega arith) (omega arith)) in
      absurd (cc (at, up, dead.1, dead.2))

  -- With every backend alive the scan takes the start.
  pub Scan-start :
      (r : Pick)
      → 0 < length bs
      → All (λ b. b.alive ≡ true) bs
      → Scan bs start 0 (length bs) r
      → r ≡ picked (start % length bs)
  Scan-start r some_backend all (inl (zero, _, _, e, _, _)) =
      e ∙ ap (λ x. picked (x % length bs)) (omega arith)
  Scan-start r some_backend all (inl (suc d, _, _, e, _, before)) =
      absurd (not-IsDeadAt bs _ all (before 0 (omega arith) (omega arith)))
  Scan-start r some_backend all (inr (_, dead)) =
      absurd (not-IsDeadAt bs _ all (dead 0 (omega arith) (omega arith)))
