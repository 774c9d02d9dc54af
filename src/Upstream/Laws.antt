-- ===== src/Upstream/Laws.antt =====
-- What `AddRoute` makes of a route's upstreams.
use vxapigateway.Prelude.{
  ℕ, ◌+◌, ◌≡◌, ◌≢◌, ◌⊎◌, inl, inr, refl, ap, true, false, List, [], ◌∷◌, ◌++◌, Option, none, some,
  All, All-append, arith, Bool-cases, Option-cases, if◌then◌else◌, get_elem?,
}
use vxapigateway.Prelude.Bytes.{Bytes, codes, beq, trim_space, contains}
use vxapigateway.Prelude.BytesLaws.{beq_iff, beq_refl}
use vxapigateway.Prelude.Word.{slt}
use vxapigateway.Backend.{Url, Backend}
use vxapigateway.Pool.{ServicePool, add_backend}
use vxapigateway.Upstream.{
  ServiceRoute, member, default_weight, weight_or, weight_at, new_backend, usable,
  normalize_upstream, add_upstreams,
}

-- A URL that a proxy can be made for.
abbrev pub IsUsable : Url → Type 0
IsUsable u = (u.host ≢ []) × ((u.scheme ≡ codes "http") ⊎ (u.scheme ≡ codes "https"))

usable_sound : (o : Option Url) (u : Url) → usable o ≡ some u → (o ≡ some u) × IsUsable u
usable_sound none u h = absurd (cc h)
usable_sound (some v) u h =
    ground
      (arith, beq_iff v.host [], beq_iff v.scheme (codes "http"), beq_iff v.scheme (codes "https"))

-- The backends of one pool have different URLs.
abbrev pub Distinct : List Backend → Type 0
Distinct [] = Unit {0}
Distinct (b ∷ bs) = All (λ c. c.url.text ≢ b.url.text) bs × Distinct bs

-- A backend as `AddRoute` makes it.
abbrev pub IsFresh : ServiceRoute → Backend → Type 0
IsFresh cfg b =
    IsUsable b.url
    × (b.alive ≡ true)
    × (b.connections ≡ 0)
    × (b.fail_count ≡ 0)
    × (slt 0 b.weight ≡ true)
    × (b.health_path ≡ cfg.health_path)
    × (b.preserve_host ≡ cfg.preserve_host)

Distinct-append :
    (bs : List Backend) (b : Backend)
    → Distinct bs
    → All (λ c. b.url.text ≢ c.url.text) bs
    → Distinct (bs ++ b ∷ [])
Distinct-append [] b h k = (tt, tt)
Distinct-append (c ∷ bs) b (front, h) (new, k) = (
  All-append (λ d. d.url.text ≢ c.url.text) bs (b ∷ []) front (new, tt),
  Distinct-append bs b h k,
)

default_weight-positive : (cfg : ServiceRoute) → slt 0 (default_weight cfg) ≡ true
unfolding default_weight
default_weight-positive cfg = elim (Bool-cases (slt 0 cfg.weight)) [
  | inl positive ↦ rw positive positive
  | inr other ↦ rw other refl
]

weight_or-positive :
    (fallback : ℕ) (o : Option ℕ) → slt 0 fallback ≡ true → slt 0 (weight_or fallback o) ≡ true
weight_or-positive fallback none h = h
weight_or-positive fallback (some w) h = elim (Bool-cases (slt 0 w)) [
  | inl positive ↦ rw positive positive
  | inr other ↦ rw other h
]

weight_at-positive : (cfg : ServiceRoute) (i : ℕ) → slt 0 (weight_at cfg i) ≡ true
unfolding weight_at
weight_at-positive cfg i =
    weight_or-positive _ (get_elem? cfg.weights i) (default_weight-positive cfg)

not-member :
    (k : Bytes) (seen : List Bytes) (bs : List Backend)
    → member k seen ≡ false
    → All (λ c. member c.url.text seen ≡ true) bs
    → All (λ c. k ≢ c.url.text) bs
not-member k seen [] h a = tt
not-member k seen (b ∷ bs) h (m, a) =
    ((λ e. cc (m, h, ap (λ x. member x seen) e)), not-member k seen bs h a)

member-cons :
    (k : Bytes) (seen : List Bytes) (bs : List Backend)
    → All (λ c. member c.url.text seen ≡ true) bs
    → All (λ c. member c.url.text (k ∷ seen) ≡ true) bs
member-cons k seen [] h = tt
member-cons k seen (b ∷ bs) (m, h) = (ground arith, member-cons k seen bs h)

module _ (parse : Bytes → Option Url) where
  -- An upstream is accepted only with a host and one of the schemes http and https, and is what the
  -- parser makes of the trimmed text, or of that text behind "http://" if it holds no "://".
  pub normalize_upstream_sound :
      (raw : Bytes) (u : Url)
      → normalize_upstream parse raw ≡ some u
      → IsUsable u
        × (parse (
              if contains (trim_space raw) (codes "://")
              then trim_space raw
              else codes "http://" ++ trim_space raw)
            ≡ some u)
  unfolding normalize_upstream
  normalize_upstream_sound raw u h = elim (Bool-cases (beq (trim_space raw) [])) [
    | inl empty ↦ absurd (cc (rw (normalize_upstream, empty) at h))
    | inr text ↦ elim (Bool-cases (contains (trim_space raw) (codes "://"))) [
      | inl full ↦
          let (parsed, ok) = usable_sound _ u (rw (normalize_upstream, text, full) at h) in
          (ok, rw full parsed)
      | inr bare ↦
          let (parsed, ok) = usable_sound _ u (rw (normalize_upstream, text, bare) at h) in
          (ok, rw bare parsed)
    ]
  ]

  -- The state of the loop: the pool's backends are as they should be, and their URLs are in `seen`.
  record IsBuilt (cfg : ServiceRoute) (seen : List Bytes) (pool : ServicePool) : Type 0 where
    fresh : All (IsFresh cfg) pool.backends
    distinct : Distinct pool.backends
    recorded : All (λ b. member b.url.text seen ≡ true) pool.backends

  -- What the loop hands over.
  record IsDone (cfg : ServiceRoute) (pool : ServicePool) : Type 0 where
    fresh : All (IsFresh cfg) pool.backends
    distinct : Distinct pool.backends

  add_backend-IsBuilt :
      (cfg : ServiceRoute) (raw : Bytes) (u : Url) (i : ℕ) (seen : List Bytes) (pool : ServicePool)
      → normalize_upstream parse raw ≡ some u
      → member u.text seen ≡ false
      → IsBuilt cfg seen pool
      → IsBuilt cfg (u.text ∷ seen) (add_backend pool (new_backend cfg u (weight_at cfg i)))
  unfolding add_backend new_backend
  add_backend-IsBuilt cfg raw u i seen pool parsed new v = record {
    fresh = All-append (IsFresh cfg) pool.backends _ v.fresh (
      (
        (normalize_upstream_sound raw u parsed).0,
        refl,
        refl,
        refl,
        weight_at-positive cfg i,
        refl,
        refl,
      ),
      tt,
    );
    distinct =
        Distinct-append pool.backends _ v.distinct
          (not-member u.text seen pool.backends new v.recorded);
    recorded =
        All-append (λ b. member b.url.text (u.text ∷ seen) ≡ true) pool.backends _
          (member-cons u.text seen pool.backends v.recorded) (ground (arith, beq_refl u.text), tt);
  }

  add_upstreams-IsBuilt :
      (cfg : ServiceRoute) (targets : List Bytes) (i : ℕ) (seen : List Bytes) (pool : ServicePool)
      → IsBuilt cfg seen pool
      → IsDone cfg (add_upstreams parse cfg targets i seen pool)
  unfolding add_upstreams
  add_upstreams-IsBuilt cfg [] i seen pool v = record { fresh = v.fresh; distinct = v.distinct }
  add_upstreams-IsBuilt cfg (raw ∷ targets) i seen pool v =
      elim (Option-cases (normalize_upstream parse raw)) [
        | inl invalid ↦
            rw (invalid, add_upstreams) (add_upstreams-IsBuilt cfg targets (i + 1) seen pool v)
        | inr (u, parsed) ↦ elim (Bool-cases (member u.text seen)) [
          | inl old ↦
              rw (parsed, old, add_upstreams)
                (add_upstreams-IsBuilt cfg targets (i + 1) seen pool v)
          | inr new ↦
              rw (parsed, new, add_upstreams)
                (add_upstreams-IsBuilt cfg targets (i + 1) (u.text ∷ seen) _
                  (add_backend-IsBuilt cfg raw u i seen pool parsed new v))
        ]
      ]

  -- Starting from a pool with no backend, every backend that the loop makes has a usable URL, is
  -- alive and idle, has a positive weight and the route's health path and host setting; no two have
  -- the same URL.
  pub add_upstreams-IsFresh :
      (cfg : ServiceRoute) (targets : List Bytes) (pool : ServicePool)
      → pool.backends ≡ []
      → All (IsFresh cfg) (add_upstreams parse cfg targets 0 [] pool).backends
        × Distinct (add_upstreams parse cfg targets 0 [] pool).backends
  add_upstreams-IsFresh cfg targets pool empty =
      let start : IsBuilt cfg [] pool = record {
        fresh = rw empty tt;
        distinct = rw empty tt;
        recorded = rw empty tt;
      } in
      let done = add_upstreams-IsBuilt cfg targets 0 [] pool start in (done.fresh, done.distinct)
