-- ===== src/Gateway/Retry.antt =====
-- What the attempts to proxy a request leave behind: the breaker, the response, the counters of
-- connections.
use vxapigateway.Prelude.{
  ℕ, zero, suc, ◌%◌, ◌≡◌, refl, sym, ap, ◌∙◌, subst, inl, inr, List, [], ◌∷◌, map, some, get_elem?,
  modify, arith, Option-cases,
}
use vxapigateway.Prelude.Bytes.{Bytes}
use vxapigateway.Prelude.Word.{modulus}
use vxapigateway.Backend.{Backend, inc_connections, dec_connections, record_failure}
use vxapigateway.Pool.{ServicePool, next_peer, update_backend}
use vxapigateway.Pool.Total.{next_peer-backends}
use vxapigateway.Router.{ServiceRouter}
use vxapigateway.Breaker.{CircuitBreaker}
use vxapigateway.Breaker.Invariant.{IsValid, call-IsValid}
use vxapigateway.Breaker.Transitions.{call-world}
use vxapigateway.Recorder.{Writer}
use vxapigateway.Recorder.Laws.{IsSound, apply_all-IsSound}
use vxapigateway.Gateway.{Attempt}
use vxapigateway.Gateway.Exchange.{
  Exchange, update_pool, pool_peer, proxy, guarded, attempt_headers,
}
use vxapigateway.Gateway.Loop.{IsKept}

-- The connections that each backend counts, as 64-bit patterns.
abbrev pub connections : ServicePool → List ℕ
connections p = map (λ b. b.connections % modulus) p.backends

abbrev pub all_connections : ServiceRouter → List (List ℕ)
all_connections sr = map connections sr.pools

module _ {ℓ κ} {A : Type ℓ} {B : Type κ} (g : A → B) where
  map-modify_same :
      (xs : List A) (i : ℕ) (f : A → A)
      → ((x : A) → g (f x) ≡ g x)
      → map g (modify xs i f) ≡ map g xs
  map-modify_same [] i f h = refl
  map-modify_same (x ∷ xs) zero f h = ap (λ y. y ∷ map g xs) (h x)
  map-modify_same (x ∷ xs) (suc i) f h = ap (λ ys. g x ∷ ys) (map-modify_same xs i f h)

  -- An update undone.
  map-modify_twice :
      (xs : List A) (i : ℕ) (f f' : A → A)
      → ((x : A) → g (f' (f x)) ≡ g x)
      → map g (modify (modify xs i f) i f') ≡ map g xs
  map-modify_twice [] i f f' h = refl
  map-modify_twice (x ∷ xs) zero f f' h = ap (λ y. y ∷ map g xs) (h x)
  map-modify_twice (x ∷ xs) (suc i) f f' h = ap (λ ys. g x ∷ ys) (map-modify_twice xs i f f' h)

  map-modify_const :
      (xs : List A) (i : ℕ) (x y : A)
      → get_elem? xs i ≡ some x
      → g y ≡ g x
      → map g (modify xs i (λ _. y)) ≡ map g xs
  map-modify_const [] i x y e h = refl
  map-modify_const (z ∷ xs) zero x y e h = ap (λ w. w ∷ map g xs) (cc)
  map-modify_const (z ∷ xs) (suc i) x y e h = ap (λ ys. g z ∷ ys) (map-modify_const xs i x y e h)

pub pool_peer-connections :
    (first_byte : Bytes → ℕ) (ip : Bytes) (pool : ℕ) (sr : ServiceRouter)
    → all_connections (pool_peer first_byte ip pool sr).1 ≡ all_connections sr
unfolding pool_peer
pool_peer-connections first_byte ip pool sr = elim (Option-cases (get_elem? sr.pools pool)) [
  | inl e ↦ rw (e, pool_peer) refl
  | inr (p, e) ↦
      rw (e, pool_peer)
        (map-modify_const connections sr.pools pool p (next_peer first_byte p ip).1 e
          (ap (map (λ b. b.connections % modulus)) (next_peer-backends first_byte p ip)))
]

released :
    (b : Backend)
    → (dec_connections (inc_connections b)).connections % modulus ≡ b.connections % modulus
unfolding dec_connections inc_connections
released b = omega arith

failing :
    (now : ℕ) (b : Backend) → (record_failure now b).connections % modulus ≡ b.connections % modulus
unfolding record_failure
failing now b = refl

pub record_failure-connections :
    (pool i now : ℕ) (sr : ServiceRouter)
    → all_connections (update_pool pool (update_backend i (record_failure now)) sr)
      ≡ all_connections sr
record_failure-connections pool i now sr =
    map-modify_same connections sr.pools pool (update_backend i (record_failure now)) (λ p.
      map-modify_same (λ b. b.connections % modulus) p.backends i (record_failure now)
        (failing now))

module _ (first_byte : Bytes → ℕ) (writer : Writer) (ip : Bytes) (pool timeout : ℕ) where
  proxy-connections :
      (a : Attempt) (i : ℕ) (x : Exchange)
      → all_connections (proxy first_byte writer ip pool timeout a i x).1.router
        ≡ all_connections x.router
  unfolding proxy
  proxy-connections a i x =
      map-modify_twice connections x.router.pools pool (update_backend i inc_connections)
        (update_backend i dec_connections)
        (λ p.
          map-modify_twice (λ b. b.connections % modulus) p.backends i inc_connections
            dec_connections released)

  proxy-active :
      (a : Attempt) (i : ℕ) (x : Exchange)
      → (proxy first_byte writer ip pool timeout a i x).1.active_conns % modulus
        ≡ x.active_conns % modulus
  unfolding proxy
  proxy-active a i x = omega arith

  proxy-IsSound :
      (a : Attempt) (i : ℕ) (x : Exchange)
      → IsSound x.recorder
      → IsSound (proxy first_byte writer ip pool timeout a i x).1.recorder
  unfolding proxy
  proxy-IsSound a i x h =
      apply_all-IsSound writer
        (a.serve pool i timeout (attempt_headers ip a.gateway_time x.request)).0 x.recorder h

  -- A property of everything but the breaker is kept by `Call` if the proxy keeps it.
  pub guarded-keeps :
      (P : Exchange → Type 0)
      → ((x : Exchange) (cb : CircuitBreaker) → P x → P (record x { breaker = cb }))
      → (a : Attempt) (i : ℕ) (x : Exchange)
      → (P x → P (proxy first_byte writer ip pool timeout a i x).1)
      → P x
      → P (guarded first_byte writer ip pool timeout a i x).1
  unfolding guarded
  guarded-keeps P blind a i x keeps h =
      elim (call-world a.now a.later (proxy first_byte writer ip pool timeout a i) x x.breaker) [
        | inl e ↦ blind _ _ (subst P (sym e) h)
        | inr e ↦ blind _ _ (subst P (sym e) (keeps h))
      ]

  -- What the loop has left as it was at the start, `y`.
  pub record IsServed (y x : Exchange) : Type 0 where
    pub released : all_connections x.router ≡ all_connections y.router
    pub active : x.active_conns % modulus ≡ y.active_conns % modulus
    pub sound : IsSound y.recorder → IsSound x.recorder

  pub IsServed-IsKept : (y : Exchange) → IsKept first_byte writer ip pool timeout (IsServed y)
  IsServed-IsKept y = record {
    by_call = λ a i x.
        guarded-keeps (IsServed y)
          (λ x cb h. record { released = h.released; active = h.active; sound = h.sound }) a i x
          (λ h. record {
            released = proxy-connections a i x ∙ h.released;
            active = proxy-active a i x ∙ h.active;
            sound = λ k. proxy-IsSound a i x (h.sound k);
          });
    by_failure = λ now i x h. record {
      released = record_failure-connections pool i now x.router ∙ h.released;
      active = h.active;
      sound = h.sound;
    };
    by_peer = λ x h. record {
      released = pool_peer-connections first_byte ip pool x.router ∙ h.released;
      active = h.active;
      sound = h.sound;
    };
  }

  pub breaker-IsKept : IsKept first_byte writer ip pool timeout (λ x. IsValid x.breaker)
  unfolding guarded
  breaker-IsKept = record {
    by_call = λ a i x h.
        call-IsValid a.now a.later (proxy first_byte writer ip pool timeout a i) x x.breaker h;
    by_failure = λ now i x h. h;
    by_peer = λ x h. h;
  }
