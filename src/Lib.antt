-- ===== src/Lib.antt =====
-- A model of the API gateway (vxapigateway, in Go), and what holds of it.
--
-- One request goes through the parts in this order. `Gateway.ServeHTTP` in main.go reads the client
-- (`getClientIP`), asks the DDoSProtection, takes a token from the client's bucket (IPRateLimiter),
-- has the ServiceRouter find the route for the host and the path, authenticates the caller, looks
-- into the cache, has the route's ServicePool choose a backend, and proxies the request through the
-- CircuitBreaker, in up to three attempts; a responseRecorder stands in front of the client's writer.
--
-- Which file models which part (paths from the root of the repository):
--   Backend, Pool   routing.go: Backend, ServicePool (`NextPeer` and the four algorithms, health
--                   checks and their probes)
--   Host            routing.go: `normalizeHost`, `hostMatches`, `hostSpecificity`, `pathMatches`
--   Upstream        routing.go: `normalizeUpstream`, the upstreams of `AddRoute`; config.go:
--                   ServiceRoute
--   Settings        config.go: `splitList`, `loadEnvNamedRoutes`, `loadServiceRoutes`
--   Config          config.go: Config, `envOr` and its kin, `loadCorsOrigins`, `LoadConfig`
--   Cache           handlers.go: CacheManager
--   Router          routing.go: ServiceRouter (`AddRoute`, `Route`, `HealthCheckAll`)
--   Breaker         middleware.go: CircuitBreaker
--   Ddos            middleware.go: DDoSProtection
--   Limiter         middleware.go: IPRateLimiter
--   Client, Auth    middleware.go: `getClientIP`, `isPublicEndpoint`, `validateJWT`,
--                   `validateAPIKey`; the use of them in main.go
--   Recorder        recorder.go: responseRecorder
--   Gateway         main.go: `ServeHTTP`
--   Server          main.go: `NewGateway`, the mux, the middleware chain and the goroutines beside the
--                   requests; handlers.go: the JSON handlers; middleware.go:
--                   SecurityHeadersMiddleware, RequestIDMiddleware
--   Proxy           routing.go: the director and the error handler of `newBackendProxy`
--   Logger          logger.go: Logger, `parseLogLevel`, `useColorEnv`
--   Dashboard       dashboard.go: DashboardStats, the helpers for text and colour, the rows of the
--                   startup banner
--   Monitor         system_monitor.go: `loadAverage`, `getSystemMetrics`
--   Prelude         what the other modules share: lists over native numbers, bytes, 64-bit words
-- The functions keep their names in the other spelling (`NextPeer` is `next_peer`). A method of a
-- struct takes the record of its fields and returns it with the result. The children of a module
-- hold proofs, named for what they prove, and a module Tests.
--
-- How the code is read. Texts are lists of bytes. Go's integers and durations are 64-bit
-- patterns, with the wrap-around and the signed comparison written out; times are nanoseconds on
-- a clock that does not run over. A Go map is a function. A method that holds a mutex from its
-- first line to its return is one step, and any sequence of steps may follow; `ServeHTTP` is a
-- sequence of such steps without other requests between them. Pointers to pools and backends are
-- positions in lists; an index out of range is the result `panics`. The sort of the route table is
-- an insertion sort, since of a stable sort only the result matters.
-- Loops are recursions on the list or the count that they run over: `roundRobin` and `ipHash` on the
-- number of backends, the retries on the number of attempts left, so no fuel is needed.
--
-- Parameters. Code outside the repository is an argument of the definitions that use it: url.Parse,
-- the JSON decoder, the parsers of packages strconv and time, the network of the probes, SHA-256, the
-- token buckets of golang.org/x/time/rate, the JWT library, Redis, the client's writer, the mux of
-- package net/http, floating-point numbers, package gopsutil, and what the reverse proxy of a backend
-- does with a request: calls of the recorder and perhaps an error. Laws of them are hypotheses where
-- they are used: the JWT library returns a token without an error only if it was given a key for it;
-- the director of package httputil leaves X-Forwarded-Host alone; sort.Slice sorts by any order,
-- and no CPU time is NaN; a token bucket that is full again behaves like a new one.
--
-- Not modelled: tracing, the Prometheus collectors and their gauges, the live dashboard and the rest
-- of the startup banner, which print numbers that package fmt formats, the HTML page of the monitor,
-- the gzip handler, which nothing calls, the listener, the signals and the shutdown of the server,
-- the transports of the routes. Two panics of other packages: http.ErrAbortHandler of the reverse
-- proxy, where the body of a backend breaks off, and that of package prometheus on a path that is not
-- UTF-8. Informational statuses, which net/http sends in front of another one. Host names with runes
-- beyond ASCII. What the other parts write to the log is left out of their models.
pub mod Prelude
pub mod Backend
pub mod Pool
pub mod Breaker
pub mod Ddos
pub mod Host
pub mod Upstream
pub mod Settings
pub mod Router
pub mod Recorder
pub mod Client
pub mod Auth
pub mod Limiter
pub mod Cache
pub mod Config
pub mod Gateway
pub mod Proxy
pub mod Server
pub mod Dashboard
pub mod Logger
pub mod Monitor
