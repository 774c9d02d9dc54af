-- ===== src/Cache.antt =====
-- The CacheManager of handlers.go. Redis is a parameter: its replies are arguments.
use vxapigateway.Prelude.{ℕ, Bool, true, false, ◌++◌, Option, none, some, if◌then◌else◌}
use vxapigateway.Prelude.Bytes.{Bytes, codes}
use vxapigateway.Client.{Request}

-- Without `enable` the client of Redis is nil, and the other fields are not read.
pub record CacheManager : Type 0 where
  pub enable : Bool
  pub ttl : ℕ

-- `ping` says whether the server at an address answers.
unfoldable pub new_cache_manager : (Bytes → Bool) → Bytes → ℕ → Bool → CacheManager
new_cache_manager ping redis_addr ttl enable =
    if enable
    then if ping redis_addr
      then record { enable = true; ttl = ttl }
      else record { enable = false; ttl = 0 }
    else record { enable = false; ttl = 0 }

-- The method `Get`. `stored` is what Redis has under a key, or `none` after an error too.
unfoldable pub cache_get : CacheManager → (Bytes → Option Bytes) → Bytes → Option Bytes
cache_get cm stored key = if cm.enable then stored key else none

-- The method `Set`: the key, the value and the time to live that Redis is told, if any.
unfoldable pub cache_set : CacheManager → Bytes → Bytes → Option (Bytes × Bytes × ℕ)
cache_set cm key value = if cm.enable then some (key, value, cm.ttl) else none

-- `r.Method`, `r.Host` and `r.URL.Path`, joined.
unfoldable pub generate_key : Request → Bytes
generate_key r = codes "cache:" ++ (r.method ++ (codes ":" ++ (r.host ++ (codes ":" ++ r.path))))
