-- ===== src/Pool/Tests.antt =====
-- The theorems about pools at a concrete pool of three backends.
use vxapigateway.Prelude.{
  ℕ, ◌<◌, ◌≡◌, ◌↔◌, ◌⊎◌, refl, Bool, true, false, List, [], ◌∷◌, All, get_elem?, arith, none, some,
  if◌then◌else◌,
}
use vxapigateway.Prelude.Bytes.{Bytes, codes, beq}
use vxapigateway.Backend.{Url, Backend, Network, set_alive, record_failure}
use vxapigateway.Pool.{
  ServicePool, nil, picked, next_peer, ip_hash, ip_hash_loop, least_connections, update_backend,
  health_check,
}
use vxapigateway.Pool.Selection.{PicksAlive, next_peer-PicksAlive}
use vxapigateway.Pool.LeastConnections.{IsLeast, least_connections-IsLeast}
use vxapigateway.Pool.RoundRobin.{nth_peer, next_peer-round_robin_fair}
use vxapigateway.Pool.IpHash.{next_peer-ip_hash_sticky}
use vxapigateway.Pool.Weighted.{Covers, next_peer-weighted_iff}
use vxapigateway.Pool.Health.{health_check-alive_iff, probe_url}
use vxapigateway.Pool.Failures.{next_peer-record_failure}

abbrev url : Bytes → Url
url host = record {
  text = host;
  scheme = codes "http";
  host = host;
  hostname = host;
  port = [];
  path = [];
  raw_query = [];
}

abbrev backend : Bytes → Bool → ℕ → ℕ → Backend
backend host alive connections weight = record {
  url = url host;
  alive = alive;
  connections = connections;
  weight = weight;
  preserve_host = false;
  fail_count = 0;
  last_fail = 0;
  health_path = codes "/health";
}

abbrev three : List Backend
three =
    backend (codes "a") true 4 1 ∷ backend (codes "b") true 2 3 ∷ backend (codes "c") true 9 1 ∷ []

abbrev pool : Bytes → ServicePool
pool algo = record { backends = three; current = 6; algo = algo }

abbrev round_robin_pool : ServicePool
round_robin_pool = pool (codes "round-robin")

abbrev ip_hash_pool : ServicePool
ip_hash_pool = pool (codes "ip-hash")

abbrev weighted_pool : ServicePool
weighted_pool = pool (codes "weighted")

abbrev first_byte : Bytes → ℕ
first_byte [] = 0
first_byte (c ∷ s) = c

abbrev client : Bytes
client = codes "10.0.0.7"

-- Only the server "b" answers.
abbrev net : Network
net = record {
  dial = λ address. false;
  get = λ u. if beq u.host (codes "b") then some 204 else none;
}

next_peer-PicksAlive_example : PicksAlive three (next_peer first_byte round_robin_pool client).0
next_peer-PicksAlive_example = next_peer-PicksAlive first_byte round_robin_pool client

least_connections-IsLeast_example :
    ((k : ℕ) × (least_connections round_robin_pool ≡ picked k) × IsLeast three k)
    ⊎ ((least_connections round_robin_pool ≡ nil) × All (λ b. b.alive ≡ false) three)
least_connections-IsLeast_example =
    least_connections-IsLeast round_robin_pool (omega arith, (omega arith, (omega arith, tt)))

next_peer-round_robin_fair_example :
    (i : ℕ) × (i < 3)
    × (nth_peer first_byte (λ _. client) round_robin_pool i ≡ picked 2)
    × ((j : ℕ) → j < 3 → nth_peer first_byte (λ _. client) round_robin_pool j ≡ picked 2 → j ≡ i)
next_peer-round_robin_fair_example =
    next_peer-round_robin_fair first_byte (λ _. client) round_robin_pool 2 refl
      (refl, (refl, (refl, tt))) (omega arith) (omega arith)

next_peer-ip_hash_sticky_example :
    (next_peer first_byte (update_backend 0 (set_alive false) ip_hash_pool) client).0 ≡ picked 1
unfolding next_peer ip_hash ip_hash_loop beq
next_peer-ip_hash_sticky_example =
    next_peer-ip_hash_sticky first_byte ip_hash_pool client 1 0 refl refl (λ e. omega arith)

next_peer-weighted_iff_example :
    ((k : ℕ) → ((next_peer first_byte weighted_pool client).0 ≡ picked k) ↔ Covers three 2 k)
    × ((k : ℕ) × ((next_peer first_byte weighted_pool client).0 ≡ picked k))
    × ((next_peer first_byte weighted_pool client).1 ≡ record weighted_pool { current = 7 })
next_peer-weighted_iff_example =
    next_peer-weighted_iff first_byte weighted_pool client refl (omega arith) (omega arith)
      (omega arith)

health_check-alive_iff_example :
    ((c : Backend) × (get_elem? (health_check net round_robin_pool).backends 1 ≡ some c)
      × (c.alive ≡ true))
    ↔ ((status : ℕ) × (net.get (probe_url (backend (codes "b") true 2 3)) ≡ some status)
        × (status < 500))
health_check-alive_iff_example =
    health_check-alive_iff net round_robin_pool 1 (backend (codes "b") true 2 3) refl (λ e. cc)

next_peer-record_failure_example :
    (next_peer first_byte (update_backend 1 (record_failure 99) weighted_pool) client).0
    ≡ (next_peer first_byte weighted_pool client).0
next_peer-record_failure_example = next_peer-record_failure first_byte weighted_pool client 1 99
