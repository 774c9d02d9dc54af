-- ===== src/Pool/Failures.antt =====
-- What `NextPeer` does not look at: the failures that a backend has on record.
use mathlib.Core.Option
use vxapigateway.Prelude.{
  ℕ, zero, suc, ◌+◌, ◌%◌, ◌≡◌, refl, ap, ◌∙◌, List, [], ◌∷◌, Option, none, some, length, get_elem?,
  modify, arith,
}
use vxapigateway.Prelude.Bytes.{Bytes}
use vxapigateway.Prelude.Word.{add64, srem}
use vxapigateway.Backend.{Backend, record_failure}
use vxapigateway.Pool.{
  ServicePool, Pick, try_index, update_backend, round_robin_loop, round_robin,
  least_connections_loop, least_connections, ip_hash_loop, ip_hash, total_weight, weighted_loop,
  weighted, next_peer,
}

-- Position by position the two pools have the same liveness, connections and weights.
abbrev pub SameLoad : List Backend → List Backend → Type 0
SameLoad [] [] = Unit {0}
SameLoad [] (c ∷ cs) = ⊥
SameLoad (b ∷ bs) [] = ⊥
SameLoad (b ∷ bs) (c ∷ cs) =
    ((b.alive ≡ c.alive) × (b.connections ≡ c.connections) × (b.weight ≡ c.weight)) × SameLoad bs cs

SameLoad-refl : (bs : List Backend) → SameLoad bs bs
SameLoad-refl [] = tt
SameLoad-refl (b ∷ bs) = ((refl, refl, refl), SameLoad-refl bs)

SameLoad-modify :
    (f : Backend → Backend)
    → ((b : Backend)
        → (b.alive ≡ (f b).alive) × (b.connections ≡ (f b).connections) × (b.weight ≡ (f b).weight))
    → (bs : List Backend) (i : ℕ) → SameLoad bs (modify bs i f)
SameLoad-modify f h [] i = tt
SameLoad-modify f h (b ∷ bs) zero = (h b, SameLoad-refl bs)
SameLoad-modify f h (b ∷ bs) (suc i) = ((refl, refl, refl), SameLoad-modify f h bs i)

length-eq : (bs cs : List Backend) → SameLoad bs cs → length bs ≡ length cs
length-eq [] [] h = refl
length-eq [] (c ∷ cs) h = absurd h
length-eq (b ∷ bs) [] h = absurd h
length-eq (b ∷ bs) (c ∷ cs) h = ap suc (length-eq bs cs h.1)

try_index-eq :
    (bs cs : List Backend) (i : ℕ) (r : Pick) → SameLoad bs cs → try_index bs i r ≡ try_index cs i r
try_index-eq bs cs i r h = ground (arith, alive-eq bs cs i h)
  where
    alive-eq :
        (bs cs : List Backend) (i : ℕ)
        → SameLoad bs cs
        → Option.map (λ (b : Backend). b.alive) (get_elem? bs i)
          ≡ Option.map (λ (b : Backend). b.alive) (get_elem? cs i)
    alive-eq [] [] i h = refl
    alive-eq [] (c ∷ cs) i h = absurd h
    alive-eq (b ∷ bs) [] i h = absurd h
    alive-eq (b ∷ bs) (c ∷ cs) zero h = ap (λ x. some x) h.0.0
    alive-eq (b ∷ bs) (c ∷ cs) (suc i) h = alive-eq bs cs i h.1

module _ (bs cs : List Backend) (same : SameLoad bs cs) where
  round_robin_loop-eq :
      (next i rounds : ℕ) → round_robin_loop bs next i rounds ≡ round_robin_loop cs next i rounds
  unfolding round_robin_loop
  round_robin_loop-eq next i zero = refl
  round_robin_loop-eq next i (suc rounds) =
      ap (λ n. try_index bs (srem (add64 next i) n) (round_robin_loop bs next (i + 1) rounds))
        (length-eq bs cs same)
      ∙ ap (try_index bs (srem (add64 next i) (length cs)))
          (round_robin_loop-eq next (i + 1) rounds)
      ∙ try_index-eq bs cs (srem (add64 next i) (length cs)) _ same

  ip_hash_loop-eq : (idx i rounds : ℕ) → ip_hash_loop bs idx i rounds ≡ ip_hash_loop cs idx i rounds
  unfolding ip_hash_loop
  ip_hash_loop-eq idx i zero = refl
  ip_hash_loop-eq idx i (suc rounds) =
      ap (λ n. try_index bs ((idx + i) % n) (ip_hash_loop bs idx (i + 1) rounds))
        (length-eq bs cs same)
      ∙ ap (try_index bs ((idx + i) % length cs)) (ip_hash_loop-eq idx (i + 1) rounds)
      ∙ try_index-eq bs cs ((idx + i) % length cs) _ same

least_connections_loop-eq :
    (bs cs : List Backend) (i : ℕ) (s : Option ℕ) (m : ℕ)
    → SameLoad bs cs
    → least_connections_loop bs i s m ≡ least_connections_loop cs i s m
unfolding least_connections_loop
least_connections_loop-eq [] [] i s m h = refl
least_connections_loop-eq [] (c ∷ cs) i s m h = absurd h
least_connections_loop-eq (b ∷ bs) [] i s m h = absurd h
least_connections_loop-eq (b ∷ bs) (c ∷ cs) i s m ((a, n, w), h) = rw (
  a,
  n,
  least_connections_loop-eq bs cs (i + 1) s m h,
  least_connections_loop-eq bs cs (i + 1) (some i) c.connections h,
)

total_weight-eq :
    (bs cs : List Backend) (acc : ℕ) → SameLoad bs cs → total_weight acc bs ≡ total_weight acc cs
unfolding total_weight
total_weight-eq [] [] acc h = refl
total_weight-eq [] (c ∷ cs) acc h = absurd h
total_weight-eq (b ∷ bs) [] acc h = absurd h
total_weight-eq (b ∷ bs) (c ∷ cs) acc ((a, n, w), h) = rw (a, w) (total_weight-eq bs cs _ h)

weighted_loop-eq :
    (bs cs : List Backend) (i t cum : ℕ)
    → SameLoad bs cs
    → weighted_loop bs i t cum ≡ weighted_loop cs i t cum
unfolding weighted_loop
weighted_loop-eq [] [] i t cum h = refl
weighted_loop-eq [] (c ∷ cs) i t cum h = absurd h
weighted_loop-eq (b ∷ bs) [] i t cum h = absurd h
weighted_loop-eq (b ∷ bs) (c ∷ cs) i t cum ((a, n, w), h) = rw (
  a,
  w,
  weighted_loop-eq bs cs (i + 1) t cum h,
  weighted_loop-eq bs cs (i + 1) t (add64 cum c.weight) h,
)

next_peer-eq :
    (first_byte : Bytes → ℕ) (p : ServicePool) (cs : List Backend) (client_ip : Bytes)
    → SameLoad p.backends cs
    → (next_peer first_byte (record p { backends = cs }) client_ip).0
      ≡ (next_peer first_byte p client_ip).0
unfolding next_peer round_robin least_connections ip_hash weighted
next_peer-eq first_byte p cs client_ip same = ground (
  arith,
  length-eq p.backends cs same,
  round_robin_loop-eq p.backends cs same (add64 p.current 1) 0 (length cs),
  ip_hash_loop-eq p.backends cs same (first_byte client_ip % length cs) 0 (length cs),
  least_connections_loop-eq p.backends cs 0 none 9223372036854775807 same,
  total_weight-eq p.backends cs 0 same,
  weighted_loop-eq p.backends cs 0 (srem (add64 p.current 1) (total_weight 0 cs)) 0 same,
)

-- Recording a failure of a backend does not change which backend is selected next, whatever the
-- algorithm.
pub next_peer-record_failure :
    (first_byte : Bytes → ℕ) (p : ServicePool) (client_ip : Bytes) (i now : ℕ)
    → (next_peer first_byte (update_backend i (record_failure now) p) client_ip).0
      ≡ (next_peer first_byte p client_ip).0
unfolding record_failure
next_peer-record_failure first_byte p client_ip i now =
    next_peer-eq first_byte p (modify p.backends i (record_failure now)) client_ip
      (SameLoad-modify (record_failure now) (λ b. (refl, refl, refl)) p.backends i)
