-- ===== src/Limiter/Eviction.antt =====
-- The eviction of idle clients is not observable: a client who comes back gets a new bucket, which
-- behaves like the full one that was dropped.
use vxapigateway.Prelude.{
  ℕ, ◌≤◌, ◌≡◌, refl, sym, ap₂, ◌∙◌, subst, inl, inr, Bool, true, false, List, [], ◌∷◌, Option, none,
  some, arith, Bool-cases, Option-cases, if◌then◌else◌,
}
use vxapigateway.Prelude.Bytes.{Bytes, beq, update}
use vxapigateway.Limiter.{
  LimiterLibrary, IpRateLimiter, new_ip_rate_limiter, get_limiter, allow_ip, keep_limiter, evict,
}
use vxapigateway.Limiter.Buckets.{
  IsTimely, Operation, allows, evicts, without_evictions, Alike, IsMade, created, allowed,
  FullIsNew, answers, Alike-allow, Alike-later,
}

module _ (library : LimiterLibrary) where
  open library use {Limiter, create, allow, is_full}

  module _ (limit burst : ℕ) where
    -- The bucket that an address has, or would get.
    abbrev bucket : Option Limiter → Limiter
    bucket none = create limit burst
    bucket (some l) = l

    -- Two limiters whose buckets give the same answers library from a time on.
    record Agrees (now : ℕ) (l m : IpRateLimiter library) : Type 0 where
      limits : (l.limit ≡ limit) × (m.limit ≡ limit)
      bursts : (l.burst ≡ burst) × (m.burst ≡ burst)
      made : (ip : Bytes) → IsMade library limit burst (bucket (l.ips ip))
      alike : (ip : Bytes) → Alike library now (bucket (l.ips ip)) (bucket (m.ips ip))

    -- `GetLimiter(ip).Allow()`, by that bucket.
    allow_ip-bucket :
        (t : ℕ) (ip : Bytes) (l : IpRateLimiter library)
        → l.limit ≡ limit
        → l.burst ≡ burst
        → ((allow_ip library t ip l).0 ≡ (allow t (bucket (l.ips ip))).0)
          × ((j : Bytes)
              → bucket ((allow_ip library t ip l).1.ips j)
                ≡ (if beq ip j then (allow t (bucket (l.ips ip))).1 else bucket (l.ips j)))
          × ((allow_ip library t ip l).1.limit ≡ limit)
          × ((allow_ip library t ip l).1.burst ≡ burst)
    unfolding allow_ip get_limiter
    allow_ip-bucket t ip l same_limit same_burst = elim (Option-cases (l.ips ip)) [
      | inr (b, e) ↦ rw (e, allow_ip, get_limiter) (refl, λ j. known b j, same_limit, same_burst)
      | inl e ↦
          rw (e, allow_ip, get_limiter)
            (
              ap₂ (λ x y. (allow t (create x y)).0) same_limit same_burst,
              new,
              same_limit,
              same_burst,
            )
    ]
      where
        known :
            (b : Limiter) (j : Bytes)
            → bucket (update l.ips ip (some (allow t b).1) j)
              ≡ (if beq ip j then (allow t b).1 else bucket (l.ips j))
        known b j = ground arith

        new :
            (j : Bytes)
            → bucket (
                update
                  (update l.ips ip (some (create l.limit l.burst)))
                  ip
                  (some (allow t (create l.limit l.burst)).1)
                  j)
              ≡ (if beq ip j then (allow t (create limit burst)).1 else bucket (l.ips j))
        new j = elim (Bool-cases (beq ip j)) [
          | inl here ↦ rw here (ap₂ (λ x y. (allow t (create x y)).1) same_limit same_burst)
          | inr other ↦ rw other refl
        ]

    allow_ip-Agrees :
        (now t : ℕ) (ip : Bytes) (l m : IpRateLimiter library)
        → now ≤ t
        → Agrees now l m
        → ((allow_ip library t ip l).0 ≡ (allow_ip library t ip m).0)
          × Agrees t (allow_ip library t ip l).1 (allow_ip library t ip m).1
    allow_ip-Agrees now t ip l m le a =
        let (said_l, left_l, limit_l, burst_l) = allow_ip-bucket t ip l a.limits.0 a.bursts.0 in
        let (said_m, left_m, limit_m, burst_m) = allow_ip-bucket t ip m a.limits.1 a.bursts.1 in
        let (same, later) =
          Alike-allow library now t (bucket (l.ips ip)) (bucket (m.ips ip)) le (a.alike ip) in
        (
          said_l ∙ same ∙ sym said_m,
          record {
            limits = (limit_l, limit_m);
            bursts = (burst_l, burst_m);
            made = λ j.
                subst (IsMade library limit burst) (sym (left_l j))
                  (pick_made j (beq ip j) (allowed t (a.made ip)) (a.made j));
            alike = λ j.
                subst (λ x. Alike library t x (bucket ((allow_ip library t ip m).1.ips j)))
                  (sym (left_l j))
                  (subst
                    (λ y.
                      Alike library t
                        (if beq ip j then (allow t (bucket (l.ips ip))).1 else bucket (l.ips j)) y)
                    (sym (left_m j))
                    (pick_alike (beq ip j) _ _ _ _ later
                      (Alike-later library now t _ _ le (a.alike j))));
          },
        )
      where
        pick_made :
            (j : Bytes) (b : Bool) {x y : Limiter}
            → IsMade library limit burst x
            → IsMade library limit burst y
            → IsMade library limit burst (if b then x else y)
        pick_made j true h k = h
        pick_made j false h k = k

        pick_alike :
            (b : Bool) (x y x' y' : Limiter)
            → Alike library t x y
            → Alike library t x' y'
            → Alike library t (if b then x else x') (if b then y else y')
        pick_alike true x y x' y' h k = h
        pick_alike false x y x' y' h k = k

    -- What an eviction leaves of a bucket.
    kept-Alike :
        (now t : ℕ) (o : Option Limiter)
        → FullIsNew library limit burst
        → IsMade library limit burst (bucket o)
        → Alike library t (bucket (keep_limiter library t burst o)) (bucket o)
          × IsMade library limit burst (bucket (keep_limiter library t burst o))
    kept-Alike now t none full made = (λ times up. refl, made)
    kept-Alike now t (some b) full made = elim (Bool-cases (is_full t burst b)) [
      | inl filled ↦ rw filled (λ times up. sym (full t b made filled times up), created)
      | inr used ↦ rw used (λ times up. refl, made)
    ]

    evict-Agrees :
        (now t : ℕ) (l m : IpRateLimiter library)
        → now ≤ t
        → FullIsNew library limit burst
        → Agrees now l m
        → Agrees t (evict library t l) m
    unfolding evict
    evict-Agrees now t l m le full a = record {
      limits = a.limits;
      bursts = a.bursts;
      made = λ ip.
          subst (λ b. IsMade library limit burst (bucket (keep_limiter library t b (l.ips ip))))
            (sym a.bursts.0) (kept-Alike now t (l.ips ip) full (a.made ip)).1;
      alike = λ ip.
          subst
            (λ b.
              Alike library t (bucket (keep_limiter library t b (l.ips ip))) (bucket (m.ips ip)))
            (sym a.bursts.0)
            (λ times up.
              (kept-Alike now t (l.ips ip) full (a.made ip)).0 times up
              ∙ Alike-later library now t _ _ le (a.alike ip) times up);
    }

    answers-agree :
        (operations : List Operation) (now : ℕ) (l m : IpRateLimiter library)
        → FullIsNew library limit burst
        → IsTimely now operations
        → Agrees now l m
        → answers library operations l ≡ answers library (without_evictions operations) m
    unfolding answers
    answers-agree [] now l m full timely a = refl
    answers-agree (allows t ip ∷ operations) now l m full (le, timely) a =
        let (same, next) = allow_ip-Agrees now t ip l m le a in
        ap₂ (λ x xs. x ∷ xs) same (answers-agree operations t _ _ full timely next)
    answers-agree (evicts t ∷ operations) now l m full (le, timely) a =
        answers-agree operations t (evict library t l) m full timely
          (evict-Agrees now t l m le full a)

  -- However the evictions fall between the requests, a new rate limiter gives the clients the same
  -- answers as without evictions, as long as the clock does not go back and, in the library, a bucket
  -- that is full again behaves like a new one.
  pub answers-without_evictions :
      (limit burst : ℕ) (operations : List Operation) (now : ℕ)
      → FullIsNew library limit burst
      → IsTimely now operations
      → answers library operations (new_ip_rate_limiter library limit burst)
        ≡ answers library (without_evictions operations) (new_ip_rate_limiter library limit burst)
  unfolding new_ip_rate_limiter
  answers-without_evictions limit burst operations now full timely =
      answers-agree limit burst operations now _ _ full timely (record {
        limits = (refl, refl);
        bursts = (refl, refl);
        made = λ ip. created;
        alike = λ ip times up. refl;
      })
