-- ===== src/Gateway/Tests.antt =====
-- The theorems about `ServeHTTP` at concrete requests.
use vxapigateway.Prelude.{
  ℕ, ◌-◌, ◌≡◌, ◌⊎◌, refl, true, false, List, [], ◌∷◌, Option, none, some, arith, ltb, ◌==◌,
  if◌then◌else◌,
}
use vxapigateway.Prelude.Bytes.{Bytes, codes}
use vxapigateway.Backend.{Backend}
use vxapigateway.Breaker.{CircuitBreaker, closed, open_, call, enter}
use vxapigateway.Breaker.Invariant.{IsValid}
use vxapigateway.Router.{MatchedRoute, ServiceRouter}
use vxapigateway.Recorder.{Operation, writes_header, writes, apply_all}
use vxapigateway.Client.{Request}
use vxapigateway.Config.{Config}
use vxapigateway.Gateway.{Services, Attempt, Surroundings, Gateway, counted, crashed, http_error}
use vxapigateway.Gateway.Exchange.{guarded, proxy}
use vxapigateway.Gateway.Serve.{run_attempts, serve_http}
use vxapigateway.Gateway.Order.{IsRejected, IsPassed, serve_http-cases}
use vxapigateway.Gateway.Outcome.{IsSettled, serve_http-IsSettled}
use vxapigateway.Gateway.Attempts.{run_attempts-committed}
use vxapigateway.Gateway.Status.{IsReported, serve_http-IsReported}
use vxapigateway.Gateway.Shut.{run_attempts-shut}

-- A bucket is a number of tokens; no text is a token; the first byte is that of the text itself.
abbrev services : Services
services = record {
  limiters = record {
    Limiter = ℕ;
    create = λ limit burst. burst;
    allow = λ now n. (ltb 0 n, n - 1);
    is_full = λ now burst n. n == burst;
  };
  jwt = record {
    Token = Bytes;
    Claims = Bytes;
    parse = λ key text. none;
    is_hmac = λ token. true;
    map_claims = λ token. some token;
    is_valid = λ token. true;
    exp = λ claims. none;
    sub = λ claims. none;
  };
  first_byte = λ s. 0;
  hash = λ s. s;
}

abbrev backend : Bytes → Backend
backend host = record {
  url = record {
    text = host;
    scheme = codes "http";
    host = host;
    hostname = host;
    port = [];
    path = [];
    raw_query = [];
  };
  alive = true;
  connections = 3;
  weight = 1;
  preserve_host = false;
  fail_count = 0;
  last_fail = 0;
  health_path = [];
}

abbrev router : ServiceRouter
router = record {
  routes =
      record {
        name = codes "all";
        host = [];
        prefix = codes "/";
        pool = 0;
        strip_prefix = false;
        require_auth = false;
        timeout = 1000;
      }
      ∷ [];
  pools =
      record {
        backends = backend (codes "a") ∷ backend (codes "b") ∷ [];
        current = 0;
        algo = codes "round-robin";
      }
      ∷ [];
}

abbrev breaker : CircuitBreaker
breaker = record {
  max_failures = 5;
  reset_timeout = 100;
  failures = 0;
  last_fail_time = 0;
  state = closed;
  trips = 0;
}

abbrev config : Config
config = record {
  port = codes ":9777";
  max_requests_per_second = 10;
  max_burst_size = 20;
  ddos_threshold = 100;
  block_duration = 1000;
  jwt_secret = codes "s";
  health_check_interval = 10;
  connection_timeout = 30;
  max_idle_conns = 5;
  idle_conn_timeout = 90;
  circuit_breaker_max = 5;
  circuit_breaker_timeout = 100;
  enable_compression = false;
  enable_caching = false;
  cache_ttl = 60;
  redis_addr = [];
  load_balancing_algo = codes "round-robin";
  service_routes = [];
  cors_allowed_origins = [];
}

abbrev gateway_with : CircuitBreaker → Gateway services
gateway_with cb = record {
  router = router;
  rate_limiter = record { ips = λ ip. none; limit = 10; burst = 20 };
  ddos = record {
    requests = λ ip. none;
    blocked = λ ip. none;
    threshold = 100;
    duration = 1000;
    whitelist = λ ip. false;
    blacklist = λ ip. false;
    blocked_total = 0;
  };
  breaker = cb;
  cache = record { enable = false; ttl = 0 };
  config = config;
  metrics = record { requests_total = []; cache_hits = 0; active_conns = 0 };
}

abbrev open_breaker : CircuitBreaker
open_breaker = record breaker { failures = 5; last_fail_time = 50; state = open_; trips = 1 }

-- A backend begins an answer and breaks off.
abbrev broken_off : List Operation × Option Bytes
broken_off = (writes_header 200 ∷ writes (codes "hel") ∷ [], some (codes "EOF"))

abbrev attempt : Attempt
attempt = record {
  now = 60;
  later = 70;
  noted = 70;
  gateway_time = codes "t";
  serve = λ pool i timeout r. broken_off;
}

abbrev surroundings : Surroundings
surroundings = record {
  checked = 1;
  recorded = 2;
  allowed = 3;
  unix_time = 4;
  stored = λ key. none;
  writer = record { is_flusher = true; is_hijacker = false; accept = λ sent b. (3, false) };
  attempts = λ n. attempt;
}

abbrev request : Request
request = record {
  method = codes "GET";
  host = codes "a.b";
  path = codes "/x";
  remote_addr = codes "10.0.0.7:90";
  headers = λ name. [];
}

abbrev matched : MatchedRoute
matched = record {
  name = codes "all";
  pool = 0;
  backend_path = codes "/x";
  require_auth = false;
  timeout = 1000;
}

abbrev client : Bytes
client = codes "10.0.0.7"

-- Other attempts, the same up to number `n`.
abbrev others : ℕ → ℕ → Attempt
others n k = if ltb k n then attempt else record attempt { now = 999 }

serve_http-cases_example :
    IsRejected services surroundings request
      (gateway_with breaker)
      (serve_http services surroundings request (gateway_with breaker))
    ⊎ IsPassed services surroundings request
        (gateway_with breaker)
        (serve_http services surroundings request (gateway_with breaker))
serve_http-cases_example = serve_http-cases services surroundings request (gateway_with breaker)

breaker-IsValid : IsValid breaker
breaker-IsValid = ground arith

serve_http-IsSettled_example :
    IsSettled services surroundings
      (gateway_with breaker)
      (serve_http services surroundings request (gateway_with breaker))
serve_http-IsSettled_example =
    serve_http-IsSettled services surroundings request (gateway_with breaker) breaker-IsValid

run_attempts-committed_example :
    run_attempts services
      (record surroundings { attempts = others 1 })
      matched
      0
      client
      none
      request
      (gateway_with breaker)
    ≡ run_attempts services surroundings matched 0 client none request (gateway_with breaker)
unfolding guarded proxy call enter apply_all
run_attempts-committed_example =
    run_attempts-committed services surroundings (others 1) refl matched 0 client none request
      (gateway_with breaker) refl

run_attempts-shut_example :
    let out =
      run_attempts services surroundings matched 0 client none request
        (gateway_with open_breaker) in
    (out.0.breaker ≡ open_breaker)
    × (((out.1.ending ≡ crashed) × (out.1.sent ≡ []))
        ⊎ ((out.1.ending ≡ counted 503)
            × (out.1.sent
                ≡ http_error 503
                    (codes "Service temporarily unavailable: circuit breaker is open"))))
run_attempts-shut_example =
    run_attempts-shut services surroundings matched 0 client none request
      (gateway_with open_breaker) (λ k. (refl, omega arith, omega arith))

serve_http-IsReported_example :
    IsReported
      (serve_http services surroundings request (gateway_with breaker)).1.ending
      (serve_http services surroundings request (gateway_with breaker)).1.sent
serve_http-IsReported_example =
    serve_http-IsReported services surroundings (λ n pool i timeout r. (tt, (omega arith, tt)))
      request (gateway_with breaker)
