-- ===== src/Server/Start.antt =====
-- What `NewGateway` makes of a configuration.
use vxapigateway.Prelude.{
  ℕ, ◌+◌, ◌<◌, ◌≡◌, refl, ◌∙◌, inl, inr, List, [], ◌∷◌, Option, length, All, All-append, arith,
  Bool-cases, Option-cases, ◌==◌,
}
use vxapigateway.Prelude.Bytes.{Bytes}
use vxapigateway.Prelude.Word.{half_modulus}
use vxapigateway.Backend.{Url, Backend}
use vxapigateway.Pool.{ServicePool, new_service_pool, add_backend}
use vxapigateway.Breaker.Invariant.{IsValid, new_circuit_breaker-IsValid}
use vxapigateway.Upstream.{
  ServiceRoute, merged_targets, normalize_upstream, member, weight_at, new_backend, add_upstreams,
}
use vxapigateway.Upstream.Laws.{IsFresh, add_upstreams-IsFresh}
use vxapigateway.Router.{ServiceRouter, new_service_router, add_route}
use vxapigateway.Router.Invariant.{
  IsWellFormed, new_service_router-IsWellFormed, add_route-IsWellFormed, made,
}
use vxapigateway.Config.{Config}
use vxapigateway.Gateway.{Services}
use vxapigateway.Gateway.Room.{HasCalls, AllHaveCalls}
use vxapigateway.Server.{Environment, register_routes, new_gateway}

-- A pool that no request has used.
pub record IsUnused (p : ServicePool) : Type 0 where
  pub first : p.current ≡ 0
  pub idle : All (λ b. b.connections ≡ 0) p.backends

module _ (parse : Bytes → Option Url) where
  add_upstreams-current :
      (cfg : ServiceRoute) (targets : List Bytes) (i : ℕ) (seen : List Bytes) (pool : ServicePool)
      → (add_upstreams parse cfg targets i seen pool).current ≡ pool.current
  unfolding add_upstreams add_backend
  add_upstreams-current cfg [] i seen pool = refl
  add_upstreams-current cfg (raw ∷ targets) i seen pool =
      elim (Option-cases (normalize_upstream parse raw)) [
        | inl e ↦ rw (e, add_upstreams) (add_upstreams-current cfg targets (i + 1) seen pool)
        | inr (u, e) ↦ elim (Bool-cases (member u.text seen)) [
          | inl old ↦
              rw (e, old, add_upstreams) (add_upstreams-current cfg targets (i + 1) seen pool)
          | inr new ↦
              rw (e, new, add_upstreams)
                (add_upstreams-current cfg targets (i + 1) (u.text ∷ seen)
                  (add_backend pool (new_backend cfg u (weight_at cfg i))))
        ]
      ]

  idle_of_fresh :
      (cfg : ServiceRoute) (bs : List Backend)
      → All (IsFresh cfg) bs
      → All (λ b. b.connections ≡ 0) bs
  idle_of_fresh cfg [] h = tt
  idle_of_fresh cfg (b ∷ bs) (h, hs) = (h.2, idle_of_fresh cfg bs hs)

  made-IsUnused : (cfg : ServiceRoute) (algo : Bytes) → IsUnused (made parse cfg algo)
  made-IsUnused cfg algo = record {
    first =
        add_upstreams-current cfg (merged_targets cfg) 0 [] (new_service_pool algo)
        ∙ (unfold new_service_pool in refl);
    idle =
        idle_of_fresh cfg (made parse cfg algo).backends
          (add_upstreams-IsFresh parse cfg (merged_targets cfg) (new_service_pool algo)
            (unfold new_service_pool in refl)).0;
  }

  add_route-IsUnused :
      (cfg : ServiceRoute) (algo : Bytes) (sr : ServiceRouter)
      → All IsUnused sr.pools
      → All IsUnused (add_route parse cfg algo sr).pools
  unfolding add_route
  add_route-IsUnused cfg algo sr h =
      elim (Bool-cases (length (made parse cfg algo).backends == 0)) [
        | inl e ↦ rw (e, add_route) h
        | inr e ↦
            rw (e, add_route)
              (All-append IsUnused sr.pools (made parse cfg algo ∷ []) h
                (made-IsUnused cfg algo, tt))
      ]

  register_routes-kept :
      (routes : List ServiceRoute) (algo : Bytes) (sr : ServiceRouter)
      → IsWellFormed sr × All IsUnused sr.pools
      → IsWellFormed (register_routes parse routes algo sr)
        × All IsUnused (register_routes parse routes algo sr).pools
  unfolding register_routes
  register_routes-kept [] algo sr h = h
  register_routes-kept (route ∷ routes) algo sr (v, h) =
      register_routes-kept routes algo (add_route parse route algo sr)
        (add_route-IsWellFormed parse route algo sr v, add_route-IsUnused route algo sr h)

AllHaveCalls-of_unused :
    (k : ℕ) (ps : List ServicePool)
    → All IsUnused ps
    → All (λ p. length p.backends + k + 1 < half_modulus) ps
    → All (HasCalls k) ps
AllHaveCalls-of_unused k [] h room = tt
AllHaveCalls-of_unused k (p ∷ ps) (h, hs) (room, rooms) =
    (omega (arith, h.first, room), AllHaveCalls-of_unused k ps hs rooms)

module _ (services : Services) (env : Environment) (cfg : Config) where
  pub new_gateway-IsWellFormed : IsWellFormed (new_gateway services env cfg).router
  unfolding new_gateway
  new_gateway-IsWellFormed =
      (register_routes-kept env.parse cfg.service_routes cfg.load_balancing_algo new_service_router
        (new_service_router-IsWellFormed, unfold new_service_router in tt)).0

  pub new_gateway-IsUnused : All IsUnused (new_gateway services env cfg).router.pools
  unfolding new_gateway
  new_gateway-IsUnused =
      (register_routes-kept env.parse cfg.service_routes cfg.load_balancing_algo new_service_router
        (new_service_router-IsWellFormed, unfold new_service_router in tt)).1

  pub new_gateway-calls :
      (k : ℕ)
      → All
          (λ p. length p.backends + k + 1 < half_modulus)
          (new_gateway services env cfg).router.pools
      → AllHaveCalls k (new_gateway services env cfg).router
  new_gateway-calls k room = AllHaveCalls-of_unused k _ new_gateway-IsUnused room

  pub new_gateway-breaker :
      0 < cfg.circuit_breaker_max
      → cfg.circuit_breaker_max < half_modulus
      → IsValid (new_gateway services env cfg).breaker
  unfolding new_gateway
  new_gateway-breaker positive fits =
      new_circuit_breaker-IsValid cfg.circuit_breaker_max cfg.circuit_breaker_timeout positive fits
