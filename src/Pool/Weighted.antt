-- ===== src/Pool/Weighted.antt =====
-- `weighted`: each alive backend takes as many counter values as its weight.
use native.Mathlib.Nat.{zero-add, mod-lt}
use vxapigateway.Prelude.{
  ℕ, zero, suc, ◌+◌, ◌-◌, ◌%◌, ◌≤◌, ◌<◌, ◌≡◌, ◌↔◌, refl, sym, ap, subst, ◌∙◌, inl, inr, true, List,
  [], ◌∷◌, some, length, get_elem?, arith, Bool-cases, ltb, if◌then◌else◌,
}
use vxapigateway.Prelude.Bytes.{Bytes, codes}
use vxapigateway.Prelude.Word.{half_modulus, add64, slt, srem_of_small}
use vxapigateway.Backend.{Backend}
use vxapigateway.Pool.{ServicePool, Pick, picked, total_weight, weighted_loop, weighted, next_peer}
use vxapigateway.Pool.Dispatch.{next_peer-weighted}

-- The weight that counts: that of an alive backend.
abbrev pub share : Backend → ℕ
share b = if b.alive then b.weight else 0

abbrev pub shares : List Backend → ℕ
shares [] = 0
shares (b ∷ bs) = share b + shares bs

-- The shares in front of a position.
abbrev pub shares_before : ℕ → List Backend → ℕ
shares_before k [] = 0
shares_before zero (b ∷ bs) = 0
shares_before (suc k) (b ∷ bs) = share b + shares_before k bs

total_weight-eq :
    (acc : ℕ) (bs : List Backend)
    → acc + shares bs < half_modulus
    → total_weight acc bs ≡ acc + shares bs
unfolding total_weight
total_weight-eq acc [] h = omega arith
total_weight-eq acc (b ∷ bs) h = elim (Bool-cases b.alive) [
  | inl up ↦ ground (arith, total_weight-eq (add64 acc b.weight) bs)
  | inr down ↦ ground (arith, total_weight-eq acc bs)
]

-- The alive backend at position `k` whose interval holds the target.
abbrev pub Covers : List Backend → ℕ → ℕ → Type 0
Covers bs target k =
    (b : Backend) × (get_elem? bs k ≡ some b)
    × (b.alive ≡ true)
    × (shares_before k bs ≤ target)
    × (target < shares_before k bs + b.weight)

weighted_loop-Covers :
    (bs : List Backend) (i cum target m : ℕ)
    → cum + shares bs < half_modulus
    → target < half_modulus
    → cum ≤ target
    → weighted_loop bs i target cum ≡ picked m
    → (k : ℕ) × (m ≡ i + k) × (t : ℕ) × (target ≡ cum + t) × Covers bs t k
unfolding weighted_loop
weighted_loop-Covers [] i cum target m h small le e = absurd (cc)
weighted_loop-Covers (b ∷ bs) i cum target m h small le e = elim (Bool-cases b.alive) [
  | inr down ↦
      later 0 cum (ground arith) (omega arith)
        (weighted_loop-Covers bs (i + 1) cum target m (ground arith) small le (rw down at e))
  | inl up ↦ elim (Bool-cases (ltb target (cum + b.weight))) [
    | inl hit ↦ (
      0,
      ground (arith, tested up),
      target - cum,
      omega arith,
      (b, refl, up, omega arith, ground arith),
    )
    | inr past ↦ later b.weight (cum + b.weight) (ground arith) refl (
        weighted_loop-Covers bs (i + 1) (cum + b.weight) target m (ground arith) small
          (ground arith) (ground (arith, tested up)))
  ]
]
  where
    tested :
        b.alive ≡ true
        → (add64 cum b.weight ≡ cum + b.weight)
          × (slt target (add64 cum b.weight) ≡ ltb target (cum + b.weight))
    tested up = ground arith

    later :
        (w past : ℕ)
        → share b ≡ w
        → past ≡ cum + w
        → ((k : ℕ) × (m ≡ i + 1 + k) × (t : ℕ) × (target ≡ past + t) × Covers bs t k)
        → (k : ℕ) × (m ≡ i + k) × (t : ℕ) × (target ≡ cum + t) × Covers (b ∷ bs) t k
    later w past s p (k, e, t, e', (c, at, up, lo, hi)) =
        (suc k, omega arith, w + t, omega arith, (c, at, up, omega arith, omega arith))

weighted_loop_of_Covers :
    (bs : List Backend) (i cum t k : ℕ)
    → cum + shares bs < half_modulus
    → cum + t < half_modulus
    → Covers bs t k
    → weighted_loop bs i (cum + t) cum ≡ picked (i + k)
unfolding weighted_loop
weighted_loop_of_Covers [] i cum t k h small (c, at, _, _, _) = absurd (ground arith)
weighted_loop_of_Covers (b ∷ bs) i cum t zero h small (c, at, up, lo, hi) = ground arith
weighted_loop_of_Covers (b ∷ bs) i cum t (suc k) h small (c, at, up, lo, hi) =
    elim (Bool-cases b.alive) [
      | inr down ↦ ground (arith, weighted_loop_of_Covers bs (i + 1) cum t k)
      | inl up' ↦
          ground (arith, weighted_loop_of_Covers bs (i + 1) (cum + b.weight) (t - b.weight) k)
    ]

-- Every target below the sum of the shares lies in an interval.
Covers-total : (bs : List Backend) (t : ℕ) → t < shares bs → (k : ℕ) × Covers bs t k
Covers-total [] t h = absurd (omega arith)
Covers-total (b ∷ bs) t h = elim (Bool-cases (ltb t (share b))) [
  | inl here ↦ (0, (b, refl, ground arith, omega arith, ground arith))
  | inr there ↦
      let (k, (c, at, up, lo, hi)) = Covers-total bs (t - share b) (ground arith) in
      (suc k, (c, at, up, ground arith, ground arith))
]

shares_pos : (bs : List Backend) → 0 < shares bs → 0 < length bs
shares_pos [] h = absurd (omega arith)
shares_pos (b ∷ bs) h = omega arith

weighted-eq :
    (p : ServicePool)
    → 0 < shares p.backends
    → shares p.backends < half_modulus
    → p.current + 1 < half_modulus
    → weighted p ≡ (
      weighted_loop p.backends 0 ((p.current + 1) % shares p.backends) 0,
      record p { current = p.current + 1 },
    )
unfolding weighted
weighted-eq p positive small room =
    let total : total_weight 0 p.backends ≡ shares p.backends =
      total_weight-eq 0 p.backends (omega arith) ∙ omega arith in
    let next : add64 p.current 1 ≡ p.current + 1 = omega arith in
    let target = srem_of_small (p.current + 1) (shares p.backends) room small in
    ground (arith, total, next, target)

-- With the sum of the shares and the counter in range, and one share positive, a weighted call
-- selects the backend at position `k` exactly when it is alive and the next counter value, modulo
-- the sum of the shares, lies among the `weight` values behind the shares in front of `k`. Some
-- backend is selected, and the counter goes up by one.
pub next_peer-weighted_iff :
    (first_byte : Bytes → ℕ) (p : ServicePool) (client_ip : Bytes)
    → p.algo ≡ codes "weighted"
    → 0 < shares p.backends
    → shares p.backends < half_modulus
    → p.current + 1 < half_modulus
    → ((k : ℕ)
        → ((next_peer first_byte p client_ip).0 ≡ picked k)
          ↔ Covers p.backends ((p.current + 1) % shares p.backends) k)
      × ((k : ℕ) × ((next_peer first_byte p client_ip).0 ≡ picked k))
      × ((next_peer first_byte p client_ip).1 ≡ record p { current = p.current + 1 })
next_peer-weighted_iff first_byte p client_ip algo positive small room = (
  λ k. (
    λ e. only k (
        weighted_loop-Covers p.backends 0 0 target k (omega arith) (omega (arith, below))
          (omega arith) (sym run ∙ e)),
    λ c. run ∙ select k c,
  ),
  (let (k, c) = Covers-total p.backends target below in (k, run ∙ select k c)),
  ap (λ (r : Pick × ServicePool). r.1) whole,
)
  where
    target : ℕ
    target = (p.current + 1) % shares p.backends

    below : target < shares p.backends
    below = mod-lt (p.current + 1) positive

    whole :
        next_peer first_byte p client_ip
        ≡ (weighted_loop p.backends 0 target 0, record p { current = p.current + 1 })
    whole =
        next_peer-weighted first_byte p client_ip (shares_pos p.backends positive) algo
        ∙ weighted-eq p positive small room

    run : (next_peer first_byte p client_ip).0 ≡ weighted_loop p.backends 0 target 0
    run = ap (λ (r : Pick × ServicePool). r.0) whole

    only :
        (m : ℕ)
        → ((k : ℕ) × (m ≡ 0 + k) × (t : ℕ) × (target ≡ 0 + t) × Covers p.backends t k)
        → Covers p.backends target m
    only m (k, e, t, e', c) =
        subst (λ x. Covers p.backends x m) (sym (e' ∙ zero-add t))
          (subst (Covers p.backends t) (sym (e ∙ zero-add k)) c)

    select : (k : ℕ) → Covers p.backends target k → weighted_loop p.backends 0 target 0 ≡ picked k
    select k c =
        ap (λ x. weighted_loop p.backends 0 x 0) (sym (zero-add target))
        ∙ weighted_loop_of_Covers p.backends 0 0 target k (omega arith) (omega (arith, below)) c
        ∙ ap picked (zero-add k)
