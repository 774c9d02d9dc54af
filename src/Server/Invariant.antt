-- ===== src/Server/Invariant.antt =====
-- What holds in every state of the server.
use vxapigateway.Prelude.{
  ℕ, suc, ◌+◌, ◌*◌, ◌%◌, ◌<◌, ◌≡◌, refl, ap, ap₂, ◌∙◌, sym, subst, List, [], ◌∷◌, map, length,
  length-map, All, arith,
}
use native.Mathlib.Nat.{zero-add}
use vxapigateway.Prelude.Word.{half_modulus, modulus}
use vxapigateway.Backend.{Backend, Network, set_alive, reset_failures}
use vxapigateway.Pool.{ServicePool, check_backend, health_check}
use vxapigateway.Breaker.Invariant.{IsValid}
use vxapigateway.Router.{health_check_all}
use vxapigateway.Router.Invariant.{IsWellFormed, health_check_all-IsWellFormed}
use vxapigateway.Client.{Request}
use vxapigateway.Config.{Config}
use vxapigateway.Gateway.{Services, Surroundings, Gateway, counted}
use vxapigateway.Gateway.Retry.{connections, all_connections}
use vxapigateway.Gateway.Outcome.{serve_http-IsSettled}
use vxapigateway.Gateway.Room.{HasCalls, AllHaveCalls, AllHaveCalls-weaken}
use vxapigateway.Gateway.Answer.{serve_http-IsAnswered}
use vxapigateway.Gateway.Serve.{serve_http}
use vxapigateway.Server.{Environment, Visit, new_gateway}
use vxapigateway.Server.Steps.{Steps, here, visited, checked, cleaned, evicted}
use vxapigateway.Server.Start.{
  IsUnused, new_gateway-IsWellFormed, new_gateway-IsUnused, new_gateway-calls, new_gateway-breaker,
}
use vxapigateway.Server.Effect.{Effect, through, listed, serve-Effect}

module _ (services : Services) where
  -- The router is well-formed and its pools have `k` calls left, the breaker is valid, and no backend
  -- and no gauge counts a connection.
  pub record IsHealthy (k : ℕ) (g : Gateway services) : Type 0 where
    pub table : IsWellFormed g.router
    pub calls : AllHaveCalls k g.router
    pub breaker : IsValid g.breaker
    pub idle : All (All (λ c. c ≡ 0)) (all_connections g.router)
    pub quiet : g.metrics.active_conns % modulus ≡ 0

  serve_http-IsHealthy :
      (s : Surroundings) (k : ℕ) (r : Request) (g : Gateway services)
      → IsHealthy (4 + k) g
      → IsHealthy k (serve_http services s r g).0
  serve_http-IsHealthy s k r g h =
      let settled = serve_http-IsSettled services s r g h.breaker in
      let answered = serve_http-IsAnswered services s k r g h.table h.calls in
      record {
        table = answered.table;
        calls = answered.calls;
        breaker = settled.breaker;
        idle = subst (All (All (λ c. c ≡ 0))) (sym settled.released) h.idle;
        quiet = settled.active ∙ h.quiet;
      }

  Effect-IsHealthy :
      (v : Visit) (k : ℕ) (g h : Gateway services)
      → Effect services v g h
      → IsHealthy (4 + k) g
      → IsHealthy k h
  Effect-IsHealthy v k g h (through r) healthy = serve_http-IsHealthy v.surroundings k r g healthy
  Effect-IsHealthy v k g h (listed operations) healthy = record {
    table = healthy.table;
    calls = AllHaveCalls-weaken k (4 + k) g.router.pools (omega arith) healthy.calls;
    breaker = healthy.breaker;
    idle = healthy.idle;
    quiet = healthy.quiet;
  }

module _ (net : Network) where
  check_backend-connections : (b : Backend) → (check_backend net b).connections ≡ b.connections
  unfolding check_backend set_alive reset_failures
  check_backend-connections b = ground arith

  health_check-connections :
      (bs : List Backend)
      → map (λ b. b.connections % modulus) (map (check_backend net) bs)
        ≡ map (λ b. b.connections % modulus) bs
  health_check-connections [] = refl
  health_check-connections (b ∷ bs) =
      ap₂ (λ c cs. c ∷ cs) (ap (λ c. c % modulus) (check_backend-connections b))
        (health_check-connections bs)

  pub health_check_all-connections :
      (ps : List ServicePool) → map connections (map (health_check net) ps) ≡ map connections ps
  unfolding health_check
  health_check_all-connections [] = refl
  health_check_all-connections (p ∷ ps) =
      ap₂ (λ c cs. c ∷ cs) (health_check-connections p.backends) (health_check_all-connections ps)

  health_check_all-calls :
      (k : ℕ) (ps : List ServicePool)
      → All (HasCalls k) ps
      → All (HasCalls k) (map (health_check net) ps)
  unfolding health_check
  health_check_all-calls k [] h = tt
  health_check_all-calls k (p ∷ ps) (h, hs) =
      (omega (arith, h, length-map p.backends (check_backend net)), health_check_all-calls k ps hs)

checked-IsHealthy :
    (services : Services) (net : Network) (k : ℕ) (g : Gateway services)
    → IsHealthy services k g
    → IsHealthy services k (record g { router = health_check_all net g.router })
unfolding health_check_all
checked-IsHealthy services net k g h = record {
  table = health_check_all-IsWellFormed net g.router h.table;
  calls = health_check_all-calls net k g.router.pools h.calls;
  breaker = h.breaker;
  idle =
      subst (All (All (λ c. c ≡ 0))) (sym (health_check_all-connections net g.router.pools)) h.idle;
  quiet = h.quiet;
}

pub unused-idle :
    (ps : List ServicePool) → All IsUnused ps → All (All (λ c. c ≡ 0)) (map connections ps)
unused-idle [] h = tt
unused-idle (p ∷ ps) (h, hs) = (idle p.backends h.idle, unused-idle ps hs)
  where
    idle :
        (bs : List Backend)
        → All (λ b. b.connections ≡ 0) bs
        → All (λ c. c ≡ 0) (map (λ b. b.connections % modulus) bs)
    idle [] h = tt
    idle (b ∷ bs) (h, hs) = (omega (arith, h), idle bs hs)

module _ (services : Services) where
  Steps-IsHealthy :
      (g : Gateway services) (n k : ℕ) (h : Gateway services)
      → Steps services g n h
      → IsHealthy services (4 * n + k) g
      → IsHealthy services k h
  Steps-IsHealthy g n k h here healthy = subst (λ j. IsHealthy services j g) (zero-add k) healthy
  Steps-IsHealthy g n k h (visited {n = m} {h = before} v r steps) healthy =
      let same : 4 * suc m + k ≡ 4 * m + (4 + k) = omega arith in
      Effect-IsHealthy services v k before h (serve-Effect services v r before) (
        Steps-IsHealthy g m (4 + k) before steps (subst (λ j. IsHealthy services j g) same healthy))
  Steps-IsHealthy g n k h (checked {h = before} net steps) healthy =
      checked-IsHealthy services net k before (Steps-IsHealthy g n k before steps healthy)
  Steps-IsHealthy g n k h (cleaned {h = before} now steps) healthy =
      let sound = Steps-IsHealthy g n k before steps healthy in
      record {
        table = sound.table;
        calls = sound.calls;
        breaker = sound.breaker;
        idle = sound.idle;
        quiet = sound.quiet;
      }
  Steps-IsHealthy g n k h (evicted {h = before} now steps) healthy =
      let sound = Steps-IsHealthy g n k before steps healthy in
      record {
        table = sound.table;
        calls = sound.calls;
        breaker = sound.breaker;
        idle = sound.idle;
        quiet = sound.quiet;
      }

module _ (services : Services) (env : Environment) (cfg : Config)
    (positive : 0 < cfg.circuit_breaker_max) (fits : cfg.circuit_breaker_max < half_modulus) where
  new_gateway-IsHealthy :
      (k : ℕ)
      → All
          (λ p. length p.backends + k + 1 < half_modulus)
          (new_gateway services env cfg).router.pools
      → IsHealthy services k (new_gateway services env cfg)
  new_gateway-IsHealthy k room = record {
    table = new_gateway-IsWellFormed services env cfg;
    calls = new_gateway-calls services env cfg k room;
    breaker = new_gateway-breaker services env cfg positive fits;
    idle = unused-idle _ (new_gateway-IsUnused services env cfg);
    quiet = unfold new_gateway in refl;
  }

  -- In every state that a server reaches from its start after `n` requests, with clean-ups, evictions
  -- and health checks between them: the routing table is well-formed, the breaker's count and state
  -- agree, no connection is counted that has ended, and the counters of the pools have `k` calls
  -- left. The limit of the breaker is a positive int, and `4 * n + k` calls and one round of any pool
  -- fit in an int.
  pub reached-IsHealthy :
      (n k : ℕ) (g : Gateway services)
      → All
          (λ p. length p.backends + (4 * n + k) + 1 < half_modulus)
          (new_gateway services env cfg).router.pools
      → Steps services (new_gateway services env cfg) n g
      → IsHealthy services k g
  reached-IsHealthy n k g room steps =
      Steps-IsHealthy services (new_gateway services env cfg) n k g steps
        (new_gateway-IsHealthy (4 * n + k) room)

  -- In every state that a server reaches from its start after `n` requests, `ServeHTTP` comes to the
  -- count of a status for any request, whatever Redis and the backends answer: no position of a pool or
  -- a backend is out of range, and no backend is used that NextPeer has not found. Paths are UTF-8 and
  -- no body of a backend breaks off, where packages prometheus and httputil panic. The limit of the
  -- breaker is a positive int, and `4 * n + 4` calls and one round of any pool fit in an int.
  pub reached-counts :
      (n : ℕ) (g : Gateway services)
      → All
          (λ p. length p.backends + (4 * n + 4) + 1 < half_modulus)
          (new_gateway services env cfg).router.pools
      → Steps services (new_gateway services env cfg) n g
      → (s : Surroundings) (r : Request)
      → (status : ℕ) × ((serve_http services s r g).1.ending ≡ counted status)
  reached-counts n g room steps s r =
      let healthy = reached-IsHealthy n 4 g room steps in
      (serve_http-IsAnswered services s 0 r g healthy.table healthy.calls).answered
