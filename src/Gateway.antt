-- ===== src/Gateway.antt =====
-- The Gateway of main.go: its state, and what `ServeHTTP` takes from outside. The stages of
-- `ServeHTTP` are in the children. Logs and tracing spans are left out.
pub mod Exchange
pub mod Serve
pub mod Order
pub mod Loop
pub mod Retry
pub mod Outcome
pub mod Attempts
pub mod Shut
pub mod Room
pub mod Table
pub mod Answer
pub mod Status
mod Tests
use vxapigateway.Prelude.{ℕ, ◌+◌, ◌≡◌, Bool, true, false, List, [], ◌∷◌, ◌++◌, Option, none, some}
use vxapigateway.Prelude.Bytes.{Bytes, codes}
use vxapigateway.Prelude.Word.{add64}
use vxapigateway.Breaker.{CircuitBreaker}
use vxapigateway.Ddos.{DdosProtection}
use vxapigateway.Limiter.{LimiterLibrary, IpRateLimiter}
use vxapigateway.Auth.{Jwt}
use vxapigateway.Router.{ServiceRouter}
use vxapigateway.Recorder.{ClientEvent, header, body, Operation, Writer}
use vxapigateway.Client.{Request}
use vxapigateway.Cache.{CacheManager}
use vxapigateway.Config.{Config}

-- What other packages provide: token buckets, JWT, and the digests of package sha256: the first byte,
-- and the hexadecimal text.
pub record Services : Type 1 where
  pub limiters : LimiterLibrary
  pub jwt : Jwt
  pub first_byte : Bytes → ℕ
  pub hash : Bytes → Bytes

-- The counters of metrics.go and of the dashboard that `ServeHTTP` changes. `requests_total` lists the
-- method, the endpoint and the status of each count, the newest first.
pub record Metrics : Type 0 where
  pub requests_total : List (Bytes × Bytes × ℕ)
  pub cache_hits : ℕ
  pub active_conns : ℕ

-- One run of the loop of retries: when `Call` starts and when its function returns, the time that
-- `RecordFailure` notes, the text of X-Gateway-Time, and what the proxy of a backend does with a
-- request under a timeout: its use of the recorder, and the error it hands to the dispatcher. The
-- proxy returns; that it panics with http.ErrAbortHandler, where a body breaks off, is left out.
pub record Attempt : Type 0 where
  pub now : ℕ
  pub later : ℕ
  pub noted : ℕ
  pub gateway_time : Bytes
  pub serve : ℕ → ℕ → ℕ → Request → List Operation × Option Bytes

-- What one request meets: the times of its steps, what Redis has under a key, the client's
-- writer, and the attempts.
pub record Surroundings : Type 0 where
  pub checked : ℕ
  pub recorded : ℕ
  pub allowed : ℕ
  pub unix_time : ℕ
  pub stored : Bytes → Option Bytes
  pub writer : Writer
  pub attempts : ℕ → Attempt

module _ (services : Services) where
  pub record Gateway : Type 0 where
    pub router : ServiceRouter
    pub rate_limiter : IpRateLimiter services.limiters
    pub ddos : DdosProtection
    pub breaker : CircuitBreaker
    pub cache : CacheManager
    pub config : Config
    pub metrics : Metrics

-- How a request ends: with a status that is counted, or in a panic, which net/http recovers from.
pub data Ending : Type 0 where
  counted : ℕ → Ending
  crashed : Ending

-- What the client's writer has seen, the newest call first, and the header X-Cache, if set.
pub record Reply : Type 0 where
  pub sent : List ClientEvent
  pub x_cache : Option Bytes
  pub ending : Ending

-- The path is UTF-8: package prometheus panics on a label that is not.
abbrev pub count_request : Request → ℕ → Metrics → Metrics
count_request r status m = record m {
  requests_total = (r.method, r.path, status) ∷ m.requests_total;
}

-- What http.Error sends: the status, then the message and a line feed.
abbrev pub http_error : ℕ → Bytes → List ClientEvent
http_error code message = body (message ++ codes "\n") ∷ header code ∷ []
