-- ===== src/Router/Invariant.antt =====
-- What holds of every router that `AddRoute` and the health checks have made.
use mathlib.Core.List.{Perm, perm_middle, append-nil}
use mathlib.Core.List.Perm
use vxapigateway.Prelude.{
  ℕ, ◌≤◌, ◌<◌, ◌≡◌, refl, sym, ap, ◌∙◌, true, false, List, [], ◌∷◌, ◌++◌, map, length,
  length-append, length-map, ◌≢◌, subst, Option, All, All-append, arith, Bool-cases, inl, inr, ◌==◌,
}
use vxapigateway.Prelude.Bytes.{Bytes}
use vxapigateway.Prelude.Word.{slt}
use vxapigateway.Backend.{Url, Backend, Network, set_alive, reset_failures}
use vxapigateway.Pool.{ServicePool, new_service_pool, check_backend, health_check}
use vxapigateway.Upstream.{ServiceRoute, merged_targets, add_upstreams}
use vxapigateway.Upstream.Laws.{IsUsable, Distinct, add_upstreams-IsFresh}
use vxapigateway.Router.{
  RouteEntry, ServiceRouter, new_service_router, sort_stable, route_timeout, entry_of, add_route,
  health_check_all,
}
use vxapigateway.Router.Order.{
  sort_stable-perm, All-sort_stable, class, class-sort_stable, IsRanked, sort_stable-IsRanked,
}

-- A pool that can serve: it has a backend, the URLs are usable and differ, the weights are positive.
pub record IsStocked (p : ServicePool) : Type 0 where
  pub some_backend : 0 < length p.backends
  pub usable : All (λ b. IsUsable b.url × (slt 0 b.weight ≡ true)) p.backends
  pub distinct : Distinct p.backends

pub record IsWellFormed (sr : ServiceRouter) : Type 0 where
  pub ordered : IsRanked sr.routes
  pub linked : All (λ e. (e.pool < length sr.pools) × (slt 0 e.timeout ≡ true)) sr.routes
  pub stocked : All IsStocked sr.pools

pub new_service_router-IsWellFormed : IsWellFormed new_service_router
unfolding new_service_router
new_service_router-IsWellFormed = record { ordered = tt; linked = tt; stocked = tt }

All-weaken :
    {P Q : Backend → Type 0} (f : (b : Backend) → P b → Q b) (bs : List Backend)
    → All P bs
    → All Q bs
All-weaken f [] h = tt
All-weaken f (b ∷ bs) (p, h) = (f b p, All-weaken f bs h)

linked-weaken :
    (m n : ℕ) (es : List RouteEntry)
    → m ≤ n
    → All (λ e. (e.pool < m) × (slt 0 e.timeout ≡ true)) es
    → All (λ e. (e.pool < n) × (slt 0 e.timeout ≡ true)) es
linked-weaken m n [] le h = tt
linked-weaken m n (e ∷ es) le (p, h) = ((omega arith, p.1), linked-weaken m n es le h)

route_timeout-positive : (secs : ℕ) → slt 0 (route_timeout secs) ≡ true
unfolding route_timeout
route_timeout-positive secs = ground arith

module _ (parse : Bytes → Option Url) (cfg : ServiceRoute) (algo : Bytes) where
  -- The pool that `AddRoute` makes.
  abbrev pub made : ServicePool
  made = add_upstreams parse cfg (merged_targets cfg) 0 [] (new_service_pool algo)

  made-IsStocked : (length made.backends == 0) ≡ false → IsStocked made
  made-IsStocked h =
      let (fresh, distinct) =
        add_upstreams-IsFresh parse cfg (merged_targets cfg) (new_service_pool algo)
          (unfold new_service_pool in refl) in
      record {
        some_backend = ground arith;
        usable = All-weaken (λ b f. (f.0, f.4)) made.backends fresh;
        distinct = distinct;
      }

  -- The router with one more entry and one more pool.
  abbrev registered : ServiceRouter → ServiceRouter
  registered sr = record {
    routes = sort_stable (sr.routes ++ entry_of cfg (length sr.pools) ∷ []);
    pools = sr.pools ++ made ∷ [];
  }

  add_route-skips :
      (sr : ServiceRouter) → (length made.backends == 0) ≡ true → add_route parse cfg algo sr ≡ sr
  unfolding add_route
  add_route-skips sr h = rw h refl

  add_route-registers :
      (sr : ServiceRouter)
      → (length made.backends == 0) ≡ false
      → add_route parse cfg algo sr ≡ registered sr
  unfolding add_route
  add_route-registers sr h = rw h refl

  registered-IsWellFormed :
      (sr : ServiceRouter)
      → (length made.backends == 0) ≡ false
      → IsWellFormed sr
      → IsWellFormed (registered sr)
  registered-IsWellFormed sr some_usable v =
      let e = entry_of cfg (length sr.pools) in
      let n = length-append sr.pools (made ∷ []) in
      let Linked =
        λ (x : RouteEntry). (x.pool < length (sr.pools ++ made ∷ [])) × (slt 0 x.timeout ≡ true) in
      let grown = linked-weaken (length sr.pools) _ sr.routes (omega (arith, n)) v.linked in
      let fits : length sr.pools < length (sr.pools ++ made ∷ []) = omega (arith, n) in
      record {
        ordered = sort_stable-IsRanked (sr.routes ++ e ∷ []);
        linked = All-sort_stable Linked (sr.routes ++ e ∷ []) (
            All-append Linked sr.routes (e ∷ []) grown
              ((fits, route_timeout-positive cfg.timeout_secs), tt));
        stocked =
            All-append IsStocked sr.pools (made ∷ []) v.stocked (made-IsStocked some_usable, tt);
      }

  -- Registering a route keeps a well-formed router well-formed, whatever the configuration says.
  pub add_route-IsWellFormed :
      (sr : ServiceRouter) → IsWellFormed sr → IsWellFormed (add_route parse cfg algo sr)
  add_route-IsWellFormed sr v = elim (Bool-cases (length made.backends == 0)) [
    | inl none_usable ↦ rw (add_route-skips sr none_usable) v
    | inr some_usable ↦
        rw (add_route-registers sr some_usable) (registered-IsWellFormed sr some_usable v)
  ]

  -- A route with a usable upstream adds one entry, for a new pool, to the table: no other entry is
  -- lost or changed, no entry comes behind one that it outranks, and entries of one rank stand in the
  -- order of their registration. The rank is the host, exact over wildcard over "", then its length,
  -- then the length of the prefix. A route without a usable upstream changes nothing.
  pub add_route_lem :
      (sr : ServiceRouter)
      → (made.backends ≡ [] → add_route parse cfg algo sr ≡ sr)
        × (0 < length made.backends
            → let e = entry_of cfg (length sr.pools) in
              let next = add_route parse cfg algo sr in
              Perm next.routes (e ∷ sr.routes)
              × IsRanked next.routes
              × ((c : RouteEntry) → class c next.routes ≡ class c (sr.routes ++ e ∷ []))
              × (next.pools ≡ sr.pools ++ made ∷ []))
  add_route_lem sr = (
    λ empty. add_route-skips sr (ground arith),
    λ some_backend. rw (add_route-registers sr (ground arith)) (
      Perm.trans (sort_stable-perm (sr.routes ++ e ∷ [])) (
          subst (λ x. Perm (sr.routes ++ e ∷ []) (e ∷ x)) (append-nil sr.routes)
            (perm_middle sr.routes [])),
      sort_stable-IsRanked (sr.routes ++ e ∷ []),
      λ c. class-sort_stable c (sr.routes ++ e ∷ []),
      refl,
    ),
  )
    where
      e : RouteEntry
      e = entry_of cfg (length sr.pools)

check_backend-keeps :
    (net : Network) (b : Backend)
    → ((check_backend net b).url ≡ b.url) × ((check_backend net b).weight ≡ b.weight)
unfolding check_backend set_alive reset_failures
check_backend-keeps net b = ground arith

health_check-IsStocked :
    (net : Network) (p : ServicePool) → IsStocked p → IsStocked (health_check net p)
unfolding health_check
health_check-IsStocked net p v = record {
  some_backend = rw (length-map p.backends (check_backend net)) v.some_backend;
  usable = kept p.backends v.usable;
  distinct = apart p.backends v.distinct;
}
  where
    kept :
        (bs : List Backend)
        → All (λ b. IsUsable b.url × (slt 0 b.weight ≡ true)) bs
        → All (λ b. IsUsable b.url × (slt 0 b.weight ≡ true)) (map (check_backend net) bs)
    kept [] h = tt
    kept (b ∷ bs) (h, hs) =
        let (url, weight) = check_backend-keeps net b in
        ((rw url h.0, ap (slt 0) weight ∙ h.1), kept bs hs)

    others :
        (b : Backend) (bs : List Backend)
        → All (λ c. c.url.text ≢ b.url.text) bs
        → All (λ c. c.url.text ≢ (check_backend net b).url.text) (map (check_backend net) bs)
    others b [] h = tt
    others b (c ∷ bs) (h, hs) = (
      λ e. h (
          ap (λ (u : Url). u.text) (sym (check_backend-keeps net c).0)
          ∙ e
          ∙ ap (λ (u : Url). u.text) (check_backend-keeps net b).0),
      others b bs hs,
    )

    apart : (bs : List Backend) → Distinct bs → Distinct (map (check_backend net) bs)
    apart [] h = tt
    apart (b ∷ bs) (h, hs) = (others b bs h, apart bs hs)

-- A round of health checks keeps a well-formed router well-formed.
pub health_check_all-IsWellFormed :
    (net : Network) (sr : ServiceRouter) → IsWellFormed sr → IsWellFormed (health_check_all net sr)
unfolding health_check_all
health_check_all-IsWellFormed net sr v = record {
  ordered = v.ordered;
  linked = rw (length-map sr.pools (health_check net)) v.linked;
  stocked = checked sr.pools v.stocked;
}
  where
    checked : (ps : List ServicePool) → All IsStocked ps → All IsStocked (map (health_check net) ps)
    checked [] h = tt
    checked (p ∷ ps) (h, hs) = (health_check-IsStocked net p h, checked ps hs)
