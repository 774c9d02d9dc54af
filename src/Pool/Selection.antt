-- ===== src/Pool/Selection.antt =====
-- What every algorithm guarantees of the backend that it selects.
use vxapigateway.Prelude.{
  ℕ, zero, suc, ◌+◌, ◌≡◌, refl, ◌⊎◌, inl, inr, true, List, [], ◌∷◌, Option, none, some, length,
  get_elem?, arith, ◌==◌, Bool-cases, Option-cases, ◌%◌,
}
use native.Mathlib.Nat.{zero-add}
use vxapigateway.Prelude.Bytes.{Bytes}
use vxapigateway.Prelude.Word.{slt, add64, max_int64}
use vxapigateway.Backend.{Backend}
use vxapigateway.Pool.{
  ServicePool, Pick, panics, nil, picked, of_option, try_index, round_robin_loop, round_robin,
  least_connections_loop, least_connections, ip_hash_loop, ip_hash, total_weight, weighted_loop,
  weighted, next_peer,
}

-- The position holds a backend, and it is alive.
abbrev pub IsAliveAt : List Backend → ℕ → Type 0
IsAliveAt bs i = (b : Backend) × (get_elem? bs i ≡ some b) × (b.alive ≡ true)

abbrev pub PicksAlive : List Backend → Pick → Type 0
PicksAlive bs panics = Unit
PicksAlive bs nil = Unit
PicksAlive bs (picked i) = IsAliveAt bs i

pub try_index-PicksAlive :
    (bs : List Backend) (idx : ℕ) (rest : Pick)
    → PicksAlive bs rest
    → PicksAlive bs (try_index bs idx rest)
try_index-PicksAlive bs idx rest h = elim (Option-cases (get_elem? bs idx)) [
  | inl e ↦ rw (e, try_index) tt
  | inr (b, e) ↦ elim (Bool-cases b.alive) [
    | inl up ↦ rw (e, try_index, up) (b, e, up)
    | inr down ↦ rw (e, try_index, down) h
  ]
]

round_robin_loop-PicksAlive :
    (bs : List Backend) (next i rounds : ℕ) → PicksAlive bs (round_robin_loop bs next i rounds)
unfolding round_robin_loop
round_robin_loop-PicksAlive bs next i zero = tt
round_robin_loop-PicksAlive bs next i (suc rounds) =
    try_index-PicksAlive bs _ _ (round_robin_loop-PicksAlive bs next (i + 1) rounds)

ip_hash_loop-PicksAlive :
    (bs : List Backend) (idx i rounds : ℕ) → PicksAlive bs (ip_hash_loop bs idx i rounds)
unfolding ip_hash_loop
ip_hash_loop-PicksAlive bs idx i zero = tt
ip_hash_loop-PicksAlive bs idx i (suc rounds) =
    try_index-PicksAlive bs _ _ (ip_hash_loop-PicksAlive bs idx (i + 1) rounds)

-- A loop that starts at position `i` of the pool selects at `i` or behind it.
abbrev AliveFrom : ℕ → List Backend → ℕ → Type 0
AliveFrom i bs k = (j : ℕ) × (k ≡ i + j) × IsAliveAt bs j

AliveFrom-cons :
    (i k : ℕ) (b : Backend) (bs : List Backend) → AliveFrom (i + 1) bs k → AliveFrom i (b ∷ bs) k
AliveFrom-cons i k b bs (j, e, h) = (suc j, omega arith, h)

least_connections_loop-AliveFrom :
    (bs : List Backend) (i : ℕ) (selected : Option ℕ) (min_conn k : ℕ)
    → least_connections_loop bs i selected min_conn ≡ some k
    → (selected ≡ some k) ⊎ AliveFrom i bs k
unfolding least_connections_loop
least_connections_loop-AliveFrom [] i selected m k e = inl e
least_connections_loop-AliveFrom (b ∷ bs) i selected m k e = elim (Bool-cases b.alive) [
  | inr down ↦ later (least_connections_loop-AliveFrom bs (i + 1) selected m k (rw down at e))
  | inl up ↦ elim (Bool-cases (slt b.connections m)) [
    | inr more ↦
        later (least_connections_loop-AliveFrom bs (i + 1) selected m k (rw (up, more) at e))
    | inl less ↦
        here up (
          least_connections_loop-AliveFrom bs (i + 1) (some i) b.connections k (rw (up, less) at e))
  ]
]
  where
    later :
        (selected ≡ some k) ⊎ AliveFrom (i + 1) bs k → (selected ≡ some k) ⊎ AliveFrom i (b ∷ bs) k
    later (inl s) = inl s
    later (inr h) = inr (AliveFrom-cons i k b bs h)

    here :
        b.alive ≡ true
        → (◌≡◌ {A = Option ℕ} (some i) (some k)) ⊎ AliveFrom (i + 1) bs k
        → (selected ≡ some k) ⊎ AliveFrom i (b ∷ bs) k
    here up (inl s) = inr (0, ground arith, (b, refl, up))
    here up (inr h) = inr (AliveFrom-cons i k b bs h)

weighted_loop-AliveFrom :
    (bs : List Backend) (i target cum k : ℕ)
    → weighted_loop bs i target cum ≡ picked k
    → AliveFrom i bs k
unfolding weighted_loop
weighted_loop-AliveFrom [] i target cum k e = absurd (cc)
weighted_loop-AliveFrom (b ∷ bs) i target cum k e = elim (Bool-cases b.alive) [
  | inr down ↦
      AliveFrom-cons i k b bs (weighted_loop-AliveFrom bs (i + 1) target cum k (rw down at e))
  | inl up ↦ elim (Bool-cases (slt target (add64 cum b.weight))) [
    | inr past ↦
        AliveFrom-cons i k b bs
          (weighted_loop-AliveFrom bs (i + 1) target (add64 cum b.weight) k (rw (up, past) at e))
    | inl hit ↦ (0, ground arith, (b, refl, up))
  ]
]

PicksAlive-of :
    (bs : List Backend) (r : Pick) → ((k : ℕ) → r ≡ picked k → AliveFrom 0 bs k) → PicksAlive bs r
PicksAlive-of bs panics h = tt
PicksAlive-of bs nil h = tt
PicksAlive-of bs (picked k) h = let (j, e, at) = h k refl in rw (e, zero-add) at

least_connections-PicksAlive : (p : ServicePool) → PicksAlive p.backends (least_connections p)
unfolding least_connections
least_connections-PicksAlive p =
    PicksAlive-of _ _ λ k e.
      from k (least_connections_loop-AliveFrom p.backends 0 none max_int64 k (selected k _ e))
  where
    selected : (k : ℕ) (o : Option ℕ) → of_option o ≡ picked k → o ≡ some k
    selected k none e = absurd (cc)
    selected k (some i) e = ground arith

    from :
        (k : ℕ)
        → (◌≡◌ {A = Option ℕ} none (some k)) ⊎ AliveFrom 0 p.backends k
        → AliveFrom 0 p.backends k
    from k (inl e) = absurd (cc)
    from k (inr h) = h

weighted-PicksAlive : (p : ServicePool) → PicksAlive p.backends (weighted p).0
unfolding weighted
weighted-PicksAlive p = elim (Bool-cases (total_weight 0 p.backends == 0)) [
  | inl e ↦ rw e tt
  | inr e ↦ rw e (PicksAlive-of _ _ (weighted_loop-AliveFrom p.backends 0 _ 0))
]

-- Whatever the algorithm, the state of the pool and the client, a backend that `next_peer` selects
-- is one of the pool's, and is alive.
pub next_peer-PicksAlive :
    (first_byte : Bytes → ℕ) (p : ServicePool) (client_ip : Bytes)
    → PicksAlive p.backends (next_peer first_byte p client_ip).0
unfolding next_peer round_robin ip_hash
next_peer-PicksAlive first_byte p client_ip = ground (
  arith,
  round_robin_loop-PicksAlive p.backends (add64 p.current 1) 0 (length p.backends),
  ip_hash_loop-PicksAlive p.backends (first_byte client_ip % length p.backends) 0
      (length p.backends),
  least_connections-PicksAlive p,
  weighted-PicksAlive p,
)
