-- ===== src/Pool.antt =====
-- The ServicePool of routing.go: the backends of a route and the choice among them.
-- A *Backend is its position in the pool.
pub mod Selection
pub mod Cycle
pub mod LeastConnections
pub mod Dispatch
pub mod RoundRobin
pub mod IpHash
pub mod Weighted
pub mod Health
pub mod Failures
pub mod Total
mod Tests
use vxapigateway.Prelude.{
  ℕ, zero, suc, ◌+◌, ◌%◌, List, [], ◌∷◌, ◌++◌, Option, none, some, map, length, get_elem?, modify,
  ◌==◌, if◌then◌else◌,
}
use vxapigateway.Prelude.Bytes.{Bytes, codes, beq}
use vxapigateway.Prelude.Word.{add64, slt, srem, max_int64}
use vxapigateway.Backend.{Backend, Network, probe, set_alive, reset_failures}

pub record ServicePool : Type 0 where
  pub backends : List Backend
  pub current : ℕ
  pub algo : Bytes

-- `panics` is an index out of range.
pub data Pick : Type 0 where
  panics nil : Pick
  picked : ℕ → Pick

abbrev pub of_option : Option ℕ → Pick
of_option none = nil
of_option (some i) = picked i

unfoldable pub new_service_pool : Bytes → ServicePool
new_service_pool algo = record { backends = []; current = 0; algo = algo }

unfoldable pub add_backend : ServicePool → Backend → ServicePool
add_backend p b = record p { backends = p.backends ++ b ∷ [] }

-- The method `Backends`; the callers read it only.
abbrev pub snapshot : ServicePool → List Backend
snapshot p = p.backends

-- Applies a method to the backend at a position.
abbrev pub update_backend : ℕ → (Backend → Backend) → ServicePool → ServicePool
update_backend i f p = record p { backends = modify p.backends i f }

-- One index of the loops below: the backend there is taken if it is alive.
abbrev pub try_index : List Backend → ℕ → Pick → Pick
try_index bs idx rest = elim (get_elem? bs idx) [
  | none ↦ panics
  | some b ↦ if b.alive then picked idx else rest
]

-- The loop of `roundRobin`, from `i`, with the rounds left.
unfoldable pub round_robin_loop : List Backend → ℕ → ℕ → ℕ → Pick
round_robin_loop bs next i zero = nil
round_robin_loop bs next i (suc rounds) =
    let rest = round_robin_loop bs next (i + 1) rounds in
    try_index bs (srem (add64 next i) (length bs)) rest

unfoldable pub round_robin : ServicePool → Pick × ServicePool
round_robin p =
    let next = add64 p.current 1 in
    (round_robin_loop p.backends next 0 (length p.backends), record p { current = next })

-- The loop of `leastConnections` over the backends from position `i` on.
unfoldable pub least_connections_loop : List Backend → ℕ → Option ℕ → ℕ → Option ℕ
least_connections_loop [] i selected min_conn = selected
least_connections_loop (b ∷ bs) i selected min_conn =
    let taken = least_connections_loop bs (i + 1) (some i) b.connections in
    let kept = least_connections_loop bs (i + 1) selected min_conn in
    if b.alive then if slt b.connections min_conn then taken else kept else kept

unfoldable pub least_connections : ServicePool → Pick
least_connections p = of_option (least_connections_loop p.backends 0 none max_int64)

-- The loop of `ipHash`.
unfoldable pub ip_hash_loop : List Backend → ℕ → ℕ → ℕ → Pick
ip_hash_loop bs idx i zero = nil
ip_hash_loop bs idx i (suc rounds) =
    let rest = ip_hash_loop bs idx (i + 1) rounds in try_index bs ((idx + i) % length bs) rest

unfoldable pub total_weight : ℕ → List Backend → ℕ
total_weight acc [] = acc
total_weight acc (b ∷ bs) = total_weight (if b.alive then add64 acc b.weight else acc) bs

-- The second loop of `weighted`, over the backends from position `i` on.
unfoldable pub weighted_loop : List Backend → ℕ → ℕ → ℕ → Pick
weighted_loop [] i target cum_weight = nil
weighted_loop (b ∷ bs) i target cum_weight =
    let cum = add64 cum_weight b.weight in
    let past = weighted_loop bs (i + 1) target cum in
    let skipped = weighted_loop bs (i + 1) target cum_weight in
    if b.alive then if slt target cum then picked i else past else skipped

unfoldable pub weighted : ServicePool → Pick × ServicePool
weighted p =
    let total = total_weight 0 p.backends in
    let next = add64 p.current 1 in
    if total == 0
    then (nil, p)
    else (weighted_loop p.backends 0 (srem next total) 0, record p { current = next })

-- `first_byte s` is the first byte of the SHA-256 digest of `s`.
module _ (first_byte : Bytes → ℕ) where
  unfoldable pub ip_hash : ServicePool → Bytes → Pick
  ip_hash p client_ip =
      ip_hash_loop p.backends (first_byte client_ip % length p.backends) 0 (length p.backends)

  unfoldable pub next_peer : ServicePool → Bytes → Pick × ServicePool
  next_peer p client_ip =
      if length p.backends == 0
      then (nil, p)
      else if beq p.algo (codes "round-robin")
      then round_robin p
      else if beq p.algo (codes "least-conn")
      then (least_connections p, p)
      else if beq p.algo (codes "ip-hash")
      then (ip_hash p client_ip, p)
      else if beq p.algo (codes "weighted")
      then weighted p
      else (least_connections p, p)

module _ (net : Network) where
  unfoldable pub check_backend : Backend → Backend
  check_backend b =
      let alive = probe net b in
      let marked = set_alive alive b in if alive then reset_failures marked else marked

  unfoldable pub health_check : ServicePool → ServicePool
  health_check p = record p { backends = map (check_backend) (snapshot p) }
