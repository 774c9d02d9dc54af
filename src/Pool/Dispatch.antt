-- ===== src/Pool/Dispatch.antt =====
-- Which algorithm `next_peer` runs for a pool with backends.
use vxapigateway.Prelude.{ℕ, ◌<◌, ◌≡◌, length, arith}
use vxapigateway.Prelude.Bytes.{Bytes, codes}
use vxapigateway.Prelude.BytesLaws.{beq_iff}
use vxapigateway.Pool.{ServicePool, round_robin, least_connections, ip_hash, weighted, next_peer}

module _ (first_byte : Bytes → ℕ) (p : ServicePool) (client_ip : Bytes)
    (some_backend : 0 < length p.backends) where
  pub next_peer-round_robin :
      p.algo ≡ codes "round-robin" → next_peer first_byte p client_ip ≡ round_robin p
  unfolding next_peer
  next_peer-round_robin h = ground (arith, beq_iff p.algo (codes "round-robin"))

  pub next_peer-least_connections :
      p.algo ≡ codes "least-conn" → next_peer first_byte p client_ip ≡ (least_connections p, p)
  unfolding next_peer
  next_peer-least_connections h =
      ground (arith, beq_iff p.algo (codes "round-robin"), beq_iff p.algo (codes "least-conn"))

  pub next_peer-ip_hash :
      p.algo ≡ codes "ip-hash"
      → next_peer first_byte p client_ip ≡ (ip_hash first_byte p client_ip, p)
  unfolding next_peer
  next_peer-ip_hash h = ground (
    arith,
    beq_iff p.algo (codes "round-robin"),
    beq_iff p.algo (codes "least-conn"),
    beq_iff p.algo (codes "ip-hash"),
  )

  pub next_peer-weighted : p.algo ≡ codes "weighted" → next_peer first_byte p client_ip ≡ weighted p
  unfolding next_peer
  next_peer-weighted h = ground (
    arith,
    beq_iff p.algo (codes "round-robin"),
    beq_iff p.algo (codes "least-conn"),
    beq_iff p.algo (codes "ip-hash"),
    beq_iff p.algo (codes "weighted"),
  )
