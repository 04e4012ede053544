-- ===== src/Lib.antt =====
-- A verification of the Go web application template: an HTTP server with a JSON API and a small
-- UI over a store of configuration entries, behind an identity-aware proxy.
--
-- A request passes the middleware of internal/api (request id, logging, security headers), the
-- root mux, and for all but the probes, the metrics and the static files the authenticated chain:
-- metrics, body limit, CSRF, authentication and, for the two routes that write, the rate limiter
-- and the role check. Authentication verifies a token with a key of the JWKS cache.
--
--   RateLimit   internal/api/ratelimit.go: the limiter (`allow`, `cleanupLocked`,
--               `evictOldestLocked`). A bucket's pointer is a value stored back under its key.
--   Auth.Jwks   internal/auth/jwt.go, `jwksClient`: the key cache. Each critical section of `key`
--               is a function; the steps of Auth.Jwks.System interleave them.
--   Auth.Callers
--               internal/auth/jwt.go: the goroutines that call `key`, each with the place it has
--               come to, and the channels they wait for. Auth.Callers.Shadow relates them to
--               Auth.Jwks.System. A panic leaves `c.mu` locked in Go; here the others go on, which
--               only adds histories.
--   Auth.Jwk    internal/auth/jwt.go: `fetch`, `parseRSAJWK`, `parseECJWK`, and `key` with its fetch.
--   Auth.Claims, Auth.Verify
--               internal/auth/jwt.go and provider.go: `claimsFromMap`, the mappings of the claims,
--               `verificationKey`, `mapJWTError`, `Authenticate`.
--   Auth.Trust  internal/auth/jwt.go: `Authenticate` on the keys that calls of `key` return.
--   Auth.Principal, Auth.Providers
--               internal/auth/principal.go; cloudflare.go, localprovider.go, pomerium.go and
--               the registry of provider.go.
--   Http        net/http as the program uses it, and internal/httputil.
--   Api         internal/api/middleware.go, handlers.go, metrics.go, routes.go, internal/ui/ui.go and
--               internal/auth/middleware.go: handlers take a request, a writer and the shared state,
--               and return them. Api.Provenance puts the store of Store.Entries under them;
--               Api.Audit follows the log lines "config changed" through the whole chain.
--   Store       internal/store/store.go: `ValidConfigKey`; `migrate` over a driver (`Driver`, with
--               what its operations do with the rows of `schema_migrations` as `Bookkeeping`);
--               `Open` over the calls that set up a handle (`Connector`); `ListConfig` and
--               `SetConfig` over the queries (`Table`, with SQLite's rows as `Contents`).
--   Config      internal/config/config.go: `Load`, and the settings that cmd/app/main.go makes.
--   Metrics     internal/metrics/metrics.go: families of series, the registry with its operations,
--               and the text exposition. A pointer to a family is its place in the registry. A
--               panic is `none`. Api.Measured is internal/api/metrics.go on it. Metrics.Commute
--               works on the quotient of Base.GoMap, which forgets the order of a `range`.
--   Program     cmd/app/main.go with internal/version and internal/api/server.go: `main` and `run` as
--               the list of what the process does, over what it meets (`Surroundings`).
--   Base        numbers, texts, association lists, and Go's time.
--   Tests       runs on concrete inputs.
--
-- Strings are lists of bytes, maps are association lists, `int` and `time.Duration` are integers;
-- `Time.Sub` saturates as in Go. A `Time` is the number of nanoseconds since Go's zero time. The
-- clock's reading and the random bytes are arguments. Every loop of the source that is modelled
-- goes once over a finite map, list or string. `format_uint`, for strconv's, has rounds for twenty
-- digits, as many as a number below 2 ^ 64 has (see Base.Decimal).
--
-- Parameters: golang-jwt (`JwtLibrary`, with the law that a token is accepted only if the key that
-- the keyfunc returned for its header verifies it, its issuer and audience are the configured ones
-- and its expiry is less than the leeway ago), base64 and the point parser of crypto/ecdsa,
-- `time.ParseDuration`, `net.SplitHostPort`, `slog.Level.UnmarshalText`, the database, the
-- templates, the file server, the HTTP client of the key cache, the parsers of media types, JSON and
-- forms, the errors of JSON encoders, and the arithmetic of `float64` (`Float64`).
--
-- Not modelled: the execution of SQL, which the drivers' laws stand for; a failure to read an
-- embedded file; the logger's output; the goroutines of net/http at a shutdown; build scripts,
-- assets and browser tests.
pub mod Base
pub mod RateLimit
pub mod Auth
pub mod Http
pub mod Store
pub mod Config
pub mod Metrics
pub mod Program
pub mod Api
pub mod Tests
