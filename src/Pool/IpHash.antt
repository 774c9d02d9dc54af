-- ===== src/Pool/IpHash.antt =====
-- `ipHash`: clients stay with their backend.
use native.Mathlib.Decide.{ℕ_discrete}
use native.Mathlib.Nat.{mod-lt}
use vxapigateway.Prelude.{
  ℕ, zero, suc, ◌+◌, ◌%◌, ◌<◌, ◌≡◌, ◌≢◌, sym, ap, subst, ◌∙◌, inl, inr, false, List, length, modify,
  arith, Bool-cases, length-modify, get_elem?-modify_ne, get_elem?-modify_self, ◌==◌,
}
use vxapigateway.Prelude.Bytes.{Bytes, codes}
use vxapigateway.Backend.{Backend, set_alive}
use vxapigateway.Pool.{
  ServicePool, Pick, picked, try_index, update_backend, ip_hash_loop, ip_hash, next_peer,
}
use vxapigateway.Pool.Cycle.{Scan, ip_hash_loop-Scan}
use vxapigateway.Pool.Dispatch.{next_peer-ip_hash}

-- The backend at position `j` goes down.
abbrev pub down_at : ℕ → List Backend → List Backend
down_at j bs = modify bs j (set_alive false)

picked_pos :
    (first_byte : Bytes → ℕ) (p : ServicePool) (client_ip : Bytes) (k : ℕ)
    → (next_peer first_byte p client_ip).0 ≡ picked k
    → 0 < length p.backends
unfolding next_peer
picked_pos first_byte p client_ip k e = elim (Bool-cases (length p.backends == 0)) [
  | inl empty ↦ absurd (cc (rw (empty, next_peer) at e))
  | inr full ↦ ground arith
]

module _ (bs : List Backend) (j k : ℕ) where
  try_index-down_at :
      (idx : ℕ) (rest rest' : Pick)
      → (rest ≡ picked k → rest' ≡ picked k)
      → j ≢ k
      → idx < length bs
      → try_index bs idx rest ≡ picked k
      → try_index (down_at j bs) idx rest' ≡ picked k
  unfolding set_alive
  try_index-down_at idx rest rest' ih other inside e = elim (ℕ_discrete j idx) [
    | yes same ↦ ground (arith, get_elem?-modify_self bs idx (set_alive false))
    | no apart ↦ ground (arith, get_elem?-modify_ne bs j idx (set_alive false) apart)
  ]

  ip_hash_loop-down_at :
      (start i rounds : ℕ)
      → 0 < length bs
      → j ≢ k
      → ip_hash_loop bs start i rounds ≡ picked k
      → ip_hash_loop (down_at j bs) start i rounds ≡ picked k
  unfolding ip_hash_loop
  ip_hash_loop-down_at start i zero some_backend other e = e
  ip_hash_loop-down_at start i (suc rounds) some_backend other e =
      rw (length-modify bs j (set_alive false)) (
        try_index-down_at ((start + i) % length bs) _ _
          (ip_hash_loop-down_at start (i + 1) rounds some_backend other) other
          (mod-lt (start + i) some_backend) e)

module _ (first_byte : Bytes → ℕ) where
  -- A call of an ip-hash pool with a backend takes the first alive backend, in cyclic order, from
  -- the position that the client's address hashes to; it leaves the pool as it is.
  pub next_peer-ip_hash_first :
      (p : ServicePool) (client_ip : Bytes)
      → p.algo ≡ codes "ip-hash"
      → 0 < length p.backends
      → let n = length p.backends in
        Scan p.backends (first_byte client_ip % n) 0 n (next_peer first_byte p client_ip).0
        × ((next_peer first_byte p client_ip).1 ≡ p)
  unfolding ip_hash
  next_peer-ip_hash_first p client_ip algo some_backend =
      let e = next_peer-ip_hash first_byte p client_ip some_backend algo in
      let start = first_byte client_ip % length p.backends in
      (
        subst (λ (r : Pick × ServicePool). Scan p.backends start 0 (length p.backends) r.0) (sym e)
            (ip_hash_loop-Scan p.backends start some_backend 0 (length p.backends)),
        ap (λ (r : Pick × ServicePool). r.1) e,
      )

  -- A client that ip-hash sends to one backend stays with it when another backend goes down.
  pub next_peer-ip_hash_sticky :
      (p : ServicePool) (client_ip : Bytes) (k j : ℕ)
      → p.algo ≡ codes "ip-hash"
      → (next_peer first_byte p client_ip).0 ≡ picked k
      → j ≢ k
      → (next_peer first_byte (update_backend j (set_alive false) p) client_ip).0 ≡ picked k
  unfolding ip_hash
  next_peer-ip_hash_sticky p client_ip k j algo e other =
      let q = update_backend j (set_alive false) p in
      let n = length-modify p.backends j (set_alive false) in
      let before = next_peer-ip_hash first_byte p client_ip some_backend algo in
      let after =
        next_peer-ip_hash first_byte q client_ip (subst (λ x. 0 < x) (sym n) some_backend) algo in
      ap (λ (r : Pick × ServicePool). r.0) after
      ∙ rw n (
          ip_hash_loop-down_at p.backends j k (first_byte client_ip % length p.backends) 0
            (length p.backends) some_backend other
            (sym (ap (λ (r : Pick × ServicePool). r.0) before) ∙ e))
    where
      some_backend : 0 < length p.backends
      some_backend = picked_pos first_byte p client_ip k e
