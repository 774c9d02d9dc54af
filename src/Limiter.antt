-- ===== src/Limiter.antt =====
-- The IPRateLimiter of middleware.go: a token bucket for each address. Package rate is a parameter.
pub mod Buckets
pub mod Eviction
mod Tests
use vxapigateway.Prelude.{ℕ, Bool, Option, none, some, if◌then◌else◌}
use vxapigateway.Prelude.Bytes.{Bytes, update}

-- Package golang.org/x/time/rate: `create` is NewLimiter, `allow` is the method Allow at a time, with
-- the bucket that it leaves, and `is_full` says whether Tokens() equals a burst at a time.
pub record LimiterLibrary : Type 1 where
  pub Limiter : Type 0
  pub create : ℕ → ℕ → Limiter
  pub allow : ℕ → Limiter → Bool × Limiter
  pub is_full : ℕ → ℕ → Limiter → Bool

module _ (library : LimiterLibrary) where
  open library use {Limiter, create, allow, is_full}

  -- `limit` and `burst` are the fields `r` and `b`.
  pub record IpRateLimiter : Type 0 where
    pub ips : Bytes → Option Limiter
    pub limit : ℕ
    pub burst : ℕ

  unfoldable pub new_ip_rate_limiter : ℕ → ℕ → IpRateLimiter
  new_ip_rate_limiter limit burst = record { ips = λ _. none; limit = limit; burst = burst }

  -- The limiter is a pointer into the map.
  unfoldable pub get_limiter : Bytes → IpRateLimiter → Limiter × IpRateLimiter
  get_limiter ip l = elim (l.ips ip) [
    | some limiter ↦ (limiter, l)
    | none ↦
        let limiter = create l.limit l.burst in
        (limiter, record l { ips = update l.ips ip (some limiter) })
  ]

  -- `GetLimiter(ip).Allow()`, which changes the limiter in the map.
  unfoldable pub allow_ip : ℕ → Bytes → IpRateLimiter → Bool × IpRateLimiter
  unfolding get_limiter
  allow_ip now ip l =
      let (limiter, found) = get_limiter ip l in
      let (allowed, used) = allow now limiter in
      (allowed, record found { ips = update found.ips ip (some used) })

  abbrev pub keep_limiter : ℕ → ℕ → Option Limiter → Option Limiter
  keep_limiter now burst none = none
  keep_limiter now burst (some limiter) = if is_full now burst limiter then none else some limiter

  -- One round of the loop of `cleanup`.
  unfoldable pub evict : ℕ → IpRateLimiter → IpRateLimiter
  evict now l = record l { ips = λ ip. keep_limiter now l.burst (l.ips ip) }
