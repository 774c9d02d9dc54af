-- ===== src/Pool/LeastConnections.antt =====
-- `leastConnections` takes the first of the alive backends with the fewest connections.
use vxapigateway.Prelude.{
  ℕ, zero, suc, ◌+◌, ◌≤◌, ◌<◌, ◌≡◌, refl, ◌⊎◌, inl, inr, true, false, List, [], ◌∷◌, Option, none,
  some, get_elem?, arith, Bool-cases, ltb, All, All-get_elem?, ap, subst, sym, ◌∙◌,
}
use vxapigateway.Prelude.Word.{slt, max_int64, half_modulus, slt_of_small}
use vxapigateway.Backend.{Backend}
use vxapigateway.Pool.{
  ServicePool, of_option, nil, picked, least_connections_loop, least_connections,
}

-- Connection counts are not negative, and below the largest `int64`.
abbrev pub IsCounted : Backend → Type 0
IsCounted b = b.connections < max_int64

-- The alive backends of the list have `m` connections or more.
abbrev NoFewer : ℕ → List Backend → Type 0
NoFewer m bs = All (λ c. c.alive ≡ true → m ≤ c.connections) bs

-- Nobody alive has fewer connections than `b`, and in front of position `k` everybody has more.
abbrev pub Wins : Backend → ℕ → List Backend → Type 0
Wins b k bs =
    (j : ℕ) (c : Backend)
    → get_elem? bs j ≡ some c
    → c.alive ≡ true
    → (b.connections ≤ c.connections) × (j < k → b.connections < c.connections)

abbrev pub IsLeast : List Backend → ℕ → Type 0
IsLeast bs k = (b : Backend) × (get_elem? bs k ≡ some b) × (b.alive ≡ true) × Wins b k bs

Wins-cons :
    (d b : Backend) (k : ℕ) (bs : List Backend)
    → (b.alive ≡ true → d.connections < b.connections)
    → Wins d k bs
    → Wins d (suc k) (b ∷ bs)
Wins-cons d b k bs front wins zero c e up = ground (arith, front)
Wins-cons d b k bs front wins (suc j) c e up =
    let (le, lt) = wins j c e up in (le, λ before. lt (omega arith))

Wins-zero : (b : Backend) (bs : List Backend) → NoFewer b.connections bs → Wins b 0 (b ∷ bs)
Wins-zero b bs h zero c e up = (ground arith, λ before. absurd (omega arith))
Wins-zero b bs h (suc j) c e up = (
  All-get_elem? (λ c. c.alive ≡ true → b.connections ≤ c.connections) bs j c h e up,
  λ before. absurd (omega arith),
)

-- The result of the loop from position `i` on: the earlier choice, if nothing has fewer than its
-- `m` connections, or else a winner that has.
abbrev Outcome : List Backend → ℕ → Option ℕ → ℕ → Option ℕ → Type 0
Outcome bs i selected m r =
    ((r ≡ selected) × NoFewer m bs)
    ⊎ ((k : ℕ) × (d : Backend) × (r ≡ some (i + k))
        × (get_elem? bs k ≡ some d)
        × (d.alive ≡ true)
        × (d.connections < m)
        × Wins d k bs)

Outcome-cons :
    (b : Backend) (bs : List Backend) (i : ℕ) (selected : Option ℕ) (m : ℕ) (r : Option ℕ)
    → (b.alive ≡ true → m ≤ b.connections)
    → Outcome bs (i + 1) selected m r
    → Outcome (b ∷ bs) i selected m r
Outcome-cons b bs i selected m r front (inl (e, h)) = inl (e, (front, h))
Outcome-cons b bs i selected m r front (inr (k, d, e, at, up, lt, wins)) = inr (
  suc k,
  d,
  e ∙ ap (λ x. some x) (omega arith),
  at,
  up,
  lt,
  Wins-cons d b k bs (λ alive. omega (arith, front alive)) wins,
)

Outcome-taken :
    (b : Backend) (bs : List Backend) (i : ℕ) (selected : Option ℕ) (m : ℕ) (r : Option ℕ)
    → b.alive ≡ true
    → b.connections < m
    → Outcome bs (i + 1) (some i) b.connections r
    → Outcome (b ∷ bs) i selected m r
Outcome-taken b bs i selected m r up lt (inl (e, h)) =
    inr (0, b, e ∙ ap (λ x. some x) (omega arith), refl, up, lt, Wins-zero b bs h)
Outcome-taken b bs i selected m r up lt (inr (k, d, e, at, alive, less, wins)) = inr (
  suc k,
  d,
  e ∙ ap (λ x. some x) (omega arith),
  at,
  alive,
  omega arith,
  Wins-cons d b k bs (λ _. less) wins,
)

module _ (b : Backend) (bs : List Backend) (i : ℕ) (selected : Option ℕ) (m : ℕ) where
  step_dead :
      b.alive ≡ false
      → least_connections_loop (b ∷ bs) i selected m ≡ least_connections_loop bs (i + 1) selected m
  unfolding least_connections_loop
  step_dead h = ground arith

  step_more :
      b.alive ≡ true
      → slt b.connections m ≡ false
      → least_connections_loop (b ∷ bs) i selected m ≡ least_connections_loop bs (i + 1) selected m
  unfolding least_connections_loop
  step_more h k = rw (h, k) refl

  step_less :
      b.alive ≡ true
      → slt b.connections m ≡ true
      → least_connections_loop (b ∷ bs) i selected m
        ≡ least_connections_loop bs (i + 1) (some i) b.connections
  unfolding least_connections_loop
  step_less h k = rw (h, k) refl

least_connections_loop-Outcome :
    (bs : List Backend) (i : ℕ) (selected : Option ℕ) (m : ℕ)
    → All IsCounted bs
    → m < half_modulus
    → Outcome bs i selected m (least_connections_loop bs i selected m)
least_connections_loop-Outcome [] i selected m counted small =
    inl (unfold least_connections_loop in refl, tt)
least_connections_loop-Outcome (b ∷ bs) i selected m (count, counted) small =
    let kept = least_connections_loop-Outcome bs (i + 1) selected m counted small in
    let Goal = Outcome (b ∷ bs) i selected m in
    let tested = slt_of_small b.connections m (omega arith) small in
    elim (Bool-cases b.alive) [
      | inr down ↦
          subst Goal (sym (step_dead b bs i selected m down))
            (Outcome-cons b bs i selected m _ (λ up. cc) kept)
      | inl up ↦ elim (Bool-cases (ltb b.connections m)) [
        | inr more ↦
            subst Goal (sym (step_more b bs i selected m up (tested ∙ more)))
              (Outcome-cons b bs i selected m _ (λ _. ground arith) kept)
        | inl less ↦ subst Goal (sym (step_less b bs i selected m up (tested ∙ less))) (
            Outcome-taken b bs i selected m _ up (ground arith) (
              least_connections_loop-Outcome bs (i + 1) (some i) b.connections counted
                (omega arith)))
      ]
    ]

-- With the counts in range, `leastConnections` selects the first of the alive backends that have the
-- fewest connections, whatever the weights, and `nil` only if no backend is alive.
pub least_connections-IsLeast :
    (p : ServicePool)
    → All IsCounted p.backends
    → ((k : ℕ) × (least_connections p ≡ picked k) × IsLeast p.backends k)
      ⊎ ((least_connections p ≡ nil) × All (λ b. b.alive ≡ false) p.backends)
unfolding least_connections
least_connections-IsLeast p counted =
    from (least_connections_loop-Outcome p.backends 0 none max_int64 counted (omega arith))
  where
    dead :
        (bs : List Backend)
        → All IsCounted bs
        → NoFewer max_int64 bs
        → All (λ b. b.alive ≡ false) bs
    dead [] c h = tt
    dead (b ∷ bs) (c, cs) (h, hs) = (
      elim (Bool-cases b.alive) [ inl up ↦ absurd (omega (arith, h up)) | inr down ↦ down ],
      dead bs cs hs,
    )

    from :
        Outcome p.backends 0 none max_int64 (least_connections_loop p.backends 0 none max_int64)
        → ((k : ℕ) × (of_option (least_connections_loop p.backends 0 none max_int64) ≡ picked k)
            × IsLeast p.backends k)
          ⊎ ((of_option (least_connections_loop p.backends 0 none max_int64) ≡ nil)
              × All (λ b. b.alive ≡ false) p.backends)
    from (inl (e, h)) = inr (ap of_option e, dead p.backends counted h)
    from (inr (k, d, e, at, up, _, wins)) =
        inl (k, ap of_option e ∙ ap picked (omega arith), (d, at, up, wins))
