-- ===== src/Pool/Total.antt =====
-- No algorithm panics, as long as the counter of the pool is in range.
use vxapigateway.Prelude.{
  ℕ, ◌+◌, ◌%◌, ◌≤◌, ◌<◌, ◌≡◌, inl, inr, List, [], ◌∷◌, Option, none, some, length, arith, Bool,
  Bool-cases, true, false, if◌then◌else◌, ◌==◌, subst,
}
use vxapigateway.Prelude.Bytes.{Bytes, codes, beq}
use vxapigateway.Prelude.Word.{max_int64, add64, slt}
use vxapigateway.Backend.{Backend}
use vxapigateway.Pool.{
  ServicePool, Pick, panics, nil, picked, of_option, next_peer, round_robin, least_connections,
  least_connections_loop, ip_hash, weighted, weighted_loop, total_weight,
}
use vxapigateway.Pool.Cycle.{Scan, ip_hash_loop-Scan}
use vxapigateway.Pool.RoundRobin.{HasRoom, round_robin-eq}

abbrev pub IsPanic : Pick → Type 0
IsPanic panics = Unit {0}
IsPanic nil = ⊥
IsPanic (picked i) = ⊥

Scan-total :
    (bs : List Backend) (start i rounds : ℕ) (r : Pick) → Scan bs start i rounds r → ¬ IsPanic r
Scan-total bs start i rounds r (inl (d, lo, hi, e, up, before)) h = subst IsPanic e h
Scan-total bs start i rounds r (inr (e, dead)) h = subst IsPanic e h

of_option-total : (o : Option ℕ) → ¬ IsPanic (of_option o)
of_option-total none h = h
of_option-total (some i) h = h

weighted_loop-total :
    (bs : List Backend) (i target cum : ℕ) → ¬ IsPanic (weighted_loop bs i target cum)
unfolding weighted_loop
weighted_loop-total [] i target cum h = h
weighted_loop-total (b ∷ bs) i target cum h = elim (Bool-cases b.alive) [
  | inr down ↦ weighted_loop-total bs (i + 1) target cum (rw down at h)
  | inl up ↦ elim (Bool-cases (slt target (add64 cum b.weight))) [
    | inl hit ↦ rw (up, hit) at h
    | inr past ↦ weighted_loop-total bs (i + 1) target (add64 cum b.weight) (rw (up, past) at h)
  ]
]

weighted-total : (p : ServicePool) → ¬ IsPanic (weighted p).0
unfolding weighted
weighted-total p h = elim (Bool-cases (total_weight 0 p.backends == 0)) [
  | inl e ↦ rw e at h
  | inr e ↦ weighted_loop-total p.backends 0 _ 0 (rw e at h)
]

round_robin-total :
    (p : ServicePool)
    → 0 < length p.backends
    → HasRoom p (length p.backends)
    → ¬ IsPanic (round_robin p).0
round_robin-total p some_backend room h =
    Scan-total p.backends (p.current + 1) 0 (length p.backends) _
      (ip_hash_loop-Scan p.backends (p.current + 1) some_backend 0 (length p.backends))
      (subst (λ (r : Pick × ServicePool). IsPanic r.0) (round_robin-eq p room) h)

if-total :
    (b : Bool) (r s : Pick × ServicePool)
    → ¬ IsPanic r.0
    → ¬ IsPanic s.0
    → ¬ IsPanic (if b then r else s).0
if-total true r s h k = h
if-total false r s h k = k

-- A call of `NextPeer` on a pool whose counter is in range of int does not index out of range.
pub next_peer-total :
    (first_byte : Bytes → ℕ) (p : ServicePool) (client_ip : Bytes)
    → HasRoom p (length p.backends)
    → ¬ IsPanic (next_peer first_byte p client_ip).0
unfolding next_peer least_connections ip_hash
next_peer-total first_byte p client_ip room = elim (Bool-cases (length p.backends == 0)) [
  | inl e ↦ rw (e, next_peer) (λ h. h)
  | inr e ↦
      let scan =
        ip_hash_loop-Scan p.backends (first_byte client_ip % length p.backends) (ground arith) 0
          (length p.backends) in
      let hashed =
        Scan-total p.backends (first_byte client_ip % length p.backends) 0 (length p.backends) _
          scan in
      let least = of_option-total (least_connections_loop p.backends 0 none max_int64) in
      rw (e, next_peer)
        (if-total (beq p.algo (codes "round-robin")) _ _ (round_robin-total p (ground arith) room) (
          if-total (beq p.algo (codes "least-conn")) _ _ least (
            if-total (beq p.algo (codes "ip-hash")) _ _ hashed
              (if-total (beq p.algo (codes "weighted")) _ _ (weighted-total p) least))))
]

pub next_peer-backends :
    (first_byte : Bytes → ℕ) (p : ServicePool) (ip : Bytes)
    → (next_peer first_byte p ip).1.backends ≡ p.backends
unfolding next_peer round_robin ip_hash weighted
next_peer-backends first_byte p ip = ground arith

pub next_peer-current :
    (first_byte : Bytes → ℕ) (p : ServicePool) (ip : Bytes)
    → (next_peer first_byte p ip).1.current ≤ p.current + 1
unfolding next_peer round_robin ip_hash weighted
next_peer-current first_byte p ip = ground arith
