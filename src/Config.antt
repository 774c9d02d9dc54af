-- ===== src/Config.antt =====
-- The Config of config.go, and how `LoadConfig` fills it from the environment. The parsers of
-- packages strconv, time and encoding/json are parameters.
use vxapigateway.Prelude.{ℕ, Bool, true, [], List, ◌∷◌, Option, none, some, if◌then◌else◌}
use vxapigateway.Prelude.Bytes.{Bytes, codes, beq}
use vxapigateway.Upstream.{ServiceRoute}
use vxapigateway.Settings.{load_service_routes}

-- Numbers are 64-bit patterns, durations those of nanoseconds.
pub record Config : Type 0 where
  pub port : Bytes
  pub max_requests_per_second : ℕ
  pub max_burst_size : ℕ
  pub ddos_threshold : ℕ
  pub block_duration : ℕ
  pub jwt_secret : Bytes
  pub health_check_interval : ℕ
  pub connection_timeout : ℕ
  pub max_idle_conns : ℕ
  pub idle_conn_timeout : ℕ
  pub circuit_breaker_max : ℕ
  pub circuit_breaker_timeout : ℕ
  pub enable_compression : Bool
  pub enable_caching : Bool
  pub cache_ttl : ℕ
  pub redis_addr : Bytes
  pub load_balancing_algo : Bytes
  pub service_routes : List ServiceRoute
  pub cors_allowed_origins : List Bytes

abbrev or_else {ℓ} : {A : Type ℓ} → A → Option A → A
or_else fallback none = fallback
or_else fallback (some x) = x

-- `get` is os.Getenv, with the empty text for a variable that is not set.
module _ (get : Bytes → Bytes) where
  unfoldable pub env_or : Bytes → Bytes → Bytes
  env_or key fallback = if beq (get key) [] then fallback else get key

  -- envOrInt, envOrBool and envOrDuration differ in their parser only.
  unfoldable pub env_or_parsed {ℓ} : {A : Type ℓ} → (Bytes → Option A) → Bytes → A → A
  env_or_parsed parse key fallback =
      if beq (get key) [] then fallback else or_else fallback (parse (get key))

  -- `none` is an error of json.Unmarshal.
  unfoldable pub load_cors_origins : (Bytes → Option (List Bytes)) → List Bytes
  load_cors_origins parse =
      let raw = get (codes "CORS_ALLOWED_ORIGINS") in
      if beq raw [] then codes "*" ∷ [] else or_else (codes "*" ∷ []) (parse raw)

-- strconv.Atoi, strconv.ParseBool, time.ParseDuration, and json.Unmarshal into two types; `none` is
-- an error.
pub record Parsers : Type 0 where
  pub atoi : Bytes → Option ℕ
  pub parse_bool : Bytes → Option Bool
  pub parse_duration : Bytes → Option ℕ
  pub parse_origins : Bytes → Option (List Bytes)
  pub parse_routes : Bytes → Option (List ServiceRoute)

module _ (p : Parsers) (get : Bytes → Bytes) where
  -- `environment` is os.Environ.
  unfoldable pub load_config : List Bytes → Config
  unfolding env_or env_or_parsed load_cors_origins load_service_routes
  load_config environment =
      let env_or_int = env_or_parsed get p.atoi in
      let env_or_bool = env_or_parsed get p.parse_bool in
      let env_or_duration = env_or_parsed get p.parse_duration in
      record {
        port = env_or get (codes "GATEWAY_PORT") (codes ":9777");
        max_requests_per_second = env_or_int (codes "MAX_REQUESTS_PER_SECOND") 100;
        max_burst_size = env_or_int (codes "MAX_BURST_SIZE") 200;
        ddos_threshold = env_or_int (codes "DDOS_THRESHOLD") 1000;
        block_duration = env_or_duration (codes "BLOCK_DURATION") 600_000_000_000;
        jwt_secret = env_or get (codes "JWT_SECRET") (codes "your-secret-key-change-in-production");
        health_check_interval = env_or_duration (codes "HEALTH_CHECK_INTERVAL") 10_000_000_000;
        connection_timeout = env_or_duration (codes "CONNECTION_TIMEOUT") 30_000_000_000;
        max_idle_conns = env_or_int (codes "MAX_IDLE_CONNS") 100;
        idle_conn_timeout = env_or_duration (codes "IDLE_CONN_TIMEOUT") 90_000_000_000;
        circuit_breaker_max = env_or_int (codes "CIRCUIT_BREAKER_MAX") 5;
        circuit_breaker_timeout = env_or_duration (codes "CIRCUIT_BREAKER_TIMEOUT") 30_000_000_000;
        enable_compression = env_or_bool (codes "ENABLE_COMPRESSION") true;
        enable_caching = env_or_bool (codes "ENABLE_CACHING") true;
        cache_ttl = env_or_duration (codes "CACHE_TTL") 300_000_000_000;
        redis_addr = env_or get (codes "REDIS_ADDR") (codes "localhost:6379");
        load_balancing_algo = env_or get (codes "LOAD_BALANCING_ALGO") (codes "least-conn");
        service_routes =
            load_service_routes p.parse_bool p.atoi p.parse_routes (get (codes "SERVICE_ROUTES"))
              environment (get (codes "ENABLE_VXCLOUD_DEFAULT_ROUTES"));
        cors_allowed_origins = load_cors_origins get p.parse_origins;
      }
