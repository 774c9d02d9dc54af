-- ===== src/Pool/Health.antt =====
-- What a round of health checks does to a pool.
use vxapigateway.Prelude.{
  ℕ, zero, suc, ◌≡◌, refl, ap, ◌∙◌, true, List, [], ◌∷◌, some, get_elem?, map, arith, if◌then◌else◌,
  ◌<◌, ◌↔◌, ◌≢◌,
}
use mathlib.Core.Option
use vxapigateway.Prelude.BytesLaws.{beq_iff}
use vxapigateway.Backend.{
  Url, Backend, Network, probe, set_alive, reset_failures, single_joining_slash,
}
use vxapigateway.Pool.{ServicePool, check_backend, health_check}

pub get_elem?-map {ℓ} :
    {A B : Type ℓ} (f : A → B) (xs : List A) (i : ℕ)
    → get_elem? (map f xs) i ≡ Option.map f (get_elem? xs i)
get_elem?-map f [] i = refl
get_elem?-map f (x ∷ xs) zero = refl
get_elem?-map f (x ∷ xs) (suc i) = get_elem?-map f xs i

-- The URL that the probe of a backend asks for.
abbrev pub probe_url : Backend → Url
probe_url b = record b.url { path = single_joining_slash b.url.path b.health_path; raw_query = [] }

-- A backend with a health path is usable exactly when it answers with a status below 500.
pub probe_iff :
    (net : Network) (b : Backend)
    → b.health_path ≢ []
    → (probe net b ≡ true) ↔ ((status : ℕ) × (net.get (probe_url b) ≡ some status) × (status < 500))
unfolding probe
probe_iff net b path = ground (arith, beq_iff b.health_path [])

-- After a health check each backend is alive exactly if its probe succeeded; a success clears its
-- failures, and nothing else of any backend or of the pool changes.
pub health_check_lem :
    (net : Network) (p : ServicePool) (i : ℕ) (b : Backend)
    → get_elem? p.backends i ≡ some b
    → (get_elem? (health_check net p).backends i
        ≡ some (record b {
          alive = probe net b;
          fail_count = if probe net b then 0 else b.fail_count;
        }))
      × ((health_check net p).current ≡ p.current)
      × ((health_check net p).algo ≡ p.algo)
unfolding health_check check_backend set_alive reset_failures
health_check_lem net p i b at = (
  get_elem?-map (check_backend net) p.backends i
      ∙ ap (Option.map (check_backend net)) at
      ∙ ap (λ x. some x) checked,
  refl,
  refl,
)
  where
    checked :
        check_backend net b
        ≡ record b { alive = probe net b; fail_count = if probe net b then 0 else b.fail_count }
    checked = ground arith

-- After a health check a backend with a health path is alive exactly when it answered its probe
-- with a status below 500.
pub health_check-alive_iff :
    (net : Network) (p : ServicePool) (i : ℕ) (b : Backend)
    → get_elem? p.backends i ≡ some b
    → b.health_path ≢ []
    → ((c : Backend) × (get_elem? (health_check net p).backends i ≡ some c) × (c.alive ≡ true))
      ↔ ((status : ℕ) × (net.get (probe_url b) ≡ some status) × (status < 500))
health_check-alive_iff net p i b at path =
    let checked = (health_check_lem net p i b at).0 in
    let answered = probe_iff net b path in
    (
      λ found. answered.0 (ground (arith, checked, found.1, found.2)),
      λ reply. (_, checked, answered.1 reply),
    )
