-- ===== src/Limiter/Buckets.antt =====
-- Buckets that give the same answers, and the requests and evictions that meet them.
use vxapigateway.Prelude.{ℕ, ◌≤◌, ◌≡◌, Bool, true, List, [], ◌∷◌, arith}
use vxapigateway.Prelude.Bytes.{Bytes}
use vxapigateway.Limiter.{LimiterLibrary, IpRateLimiter, allow_ip, evict}

-- Times that do not go back, from `now` on.
abbrev pub IsAscending : ℕ → List ℕ → Type 0
IsAscending now [] = Unit {0}
IsAscending now (t ∷ times) = (now ≤ t) × IsAscending t times

IsAscending-earlier :
    (now t : ℕ) (times : List ℕ) → now ≤ t → IsAscending t times → IsAscending now times
IsAscending-earlier now t [] h k = tt
IsAscending-earlier now t (u ∷ times) h (le, k) = (omega (arith, h, le), k)

-- What clients and the clean-up goroutine do, each with its time.
pub data Operation : Type 0 where
  allows : ℕ → Bytes → Operation
  evicts : ℕ → Operation

abbrev pub IsTimely : ℕ → List Operation → Type 0
IsTimely now [] = Unit {0}
IsTimely now (allows t ip ∷ operations) = (now ≤ t) × IsTimely t operations
IsTimely now (evicts t ∷ operations) = (now ≤ t) × IsTimely t operations

abbrev pub without_evictions : List Operation → List Operation
without_evictions [] = []
without_evictions (allows t ip ∷ operations) = allows t ip ∷ without_evictions operations
without_evictions (evicts t ∷ operations) = without_evictions operations

module _ (library : LimiterLibrary) where
  open library use {Limiter, create, allow, is_full}

  -- The answers of a bucket at some times.
  abbrev pub replies : List ℕ → Limiter → List Bool
  replies [] l = []
  replies (t ∷ times) l = (allow t l).0 ∷ replies times (allow t l).1

  -- Two buckets give the same answers from a time on.
  abbrev pub Alike : ℕ → Limiter → Limiter → Type 0
  Alike now a b = (times : List ℕ) → IsAscending now times → replies times a ≡ replies times b

  -- The buckets of a limiter: new ones, and what `Allow` leaves of them.
  pub data IsMade (limit burst : ℕ) : Limiter → Type 0 where
    created : IsMade limit burst (create limit burst)
    allowed : {l : Limiter} (t : ℕ) → IsMade limit burst l → IsMade limit burst (allow t l).1

  -- A new bucket is full, so one that holds its burst again behaves like a new one.
  abbrev pub FullIsNew : ℕ → ℕ → Type 0
  FullIsNew limit burst =
      (now : ℕ) (l : Limiter)
      → IsMade limit burst l
      → is_full now burst l ≡ true
      → Alike now l (create limit burst)

  -- The answers to the clients, in order.
  unfoldable pub answers : List Operation → IpRateLimiter library → List Bool
  unfolding allow_ip evict
  answers [] l = []
  answers (allows t ip ∷ operations) l =
      (allow_ip library t ip l).0 ∷ answers operations (allow_ip library t ip l).1
  answers (evicts t ∷ operations) l = answers operations (evict library t l)

  head_same : (a b : Bool) (xs ys : List Bool) → a ∷ xs ≡ b ∷ ys → (a ≡ b) × (xs ≡ ys)
  head_same a b xs ys e = (cc, cc)

  pub Alike-allow :
      (now t : ℕ) (a b : Limiter)
      → now ≤ t
      → Alike now a b
      → ((allow t a).0 ≡ (allow t b).0) × Alike t (allow t a).1 (allow t b).1
  Alike-allow now t a b le same = (
    (head_same _ _ [] [] (same (t ∷ []) (le, tt))).0,
    λ times up. (head_same _ _ _ _ (same (t ∷ times) (le, up))).1,
  )

  pub Alike-later : (now t : ℕ) (a b : Limiter) → now ≤ t → Alike now a b → Alike t a b
  Alike-later now t a b le same times up = same times (IsAscending-earlier now t times le up)
