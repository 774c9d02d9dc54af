-- ===== src/Limiter/Tests.antt =====
-- The theorem about the rate limiter at concrete requests.
use vxapigateway.Prelude.{
  ℕ, ◌+◌, ◌-◌, ◌≤◌, ◌≡◌, refl, true, false, List, [], ◌∷◌, arith, ltb, ◌==◌, if◌then◌else◌,
}
use vxapigateway.Prelude.Bytes.{codes}
use vxapigateway.Limiter.{LimiterLibrary, new_ip_rate_limiter}
use vxapigateway.Limiter.Buckets.{
  IsAscending, Operation, allows, evicts, replies, FullIsNew, answers, without_evictions,
}
use vxapigateway.Limiter.Eviction.{answers-without_evictions}

-- A bucket of two tokens, of which one comes back with each unit of time. A bucket is the time from
-- which on it is full.
abbrev tokens : ℕ → ℕ → ℕ
tokens now full_at = 2 - (full_at - now)

abbrev library : LimiterLibrary
library = record {
  Limiter = ℕ;
  create = λ limit burst. 0;
  allow = λ now full_at.
      if ltb 0 (tokens now full_at)
      then (true, if ltb full_at now then now + 1 else full_at + 1)
      else (false, full_at);
  is_full = λ now burst full_at. tokens now full_at == burst;
}

allow-full : (t a : ℕ) → a ≤ t → library.allow t a ≡ (true, t + 1)
allow-full t a h = ground arith

-- Buckets that are full at one time give the same answers from then on.
full-replies :
    (now a b : ℕ) (times : List ℕ)
    → a ≤ now
    → b ≤ now
    → IsAscending now times
    → replies library times a ≡ replies library times b
full-replies now a b [] p q up = refl
full-replies now a b (t ∷ times) p q (le, up) =
    rw (allow-full t a (omega arith), allow-full t b (omega arith)) refl

full-FullIsNew : FullIsNew library 1 2
full-FullIsNew now l made filled times up =
    full-replies now l 0 times (ground (arith, filled)) (omega arith) up

abbrev operations : List Operation
operations =
    allows 1 (codes "a")
    ∷ allows 1 (codes "a")
    ∷ evicts 1
    ∷ allows 1 (codes "a")
    ∷ evicts 9
    ∷ allows 9 (codes "a")
    ∷ []

answers-without_evictions_example :
    answers library operations (new_ip_rate_limiter library 1 2)
    ≡ answers library (without_evictions operations) (new_ip_rate_limiter library 1 2)
answers-without_evictions_example =
    answers-without_evictions library 1 2 operations 0 full-FullIsNew (omega arith)
