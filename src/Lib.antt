-- ===== src/Lib.antt =====
-- A verification library of the core of SentinelADC, an application delivery controller: the parts of
-- the gateway that decide which backend serves a request and whether a request is served at all.
--
-- The program keeps one pool of mutable backend objects. The health monitor checks every backend and
-- reports to the health store and to the circuit breaker, the administrator drains and overrides
-- backends, and all of them assign to the fields `healthy` and `status` of the pool. The routing
-- engine reads the pool, asks the circuit breaker about each healthy backend and lets a strategy
-- choose. Before all this stands the security pipeline: the blocklist, the check of headers, the rate
-- limiter, the anomaly detector, which penalizes addresses in the rate limiter, and the firewall; then
-- the cache, which answers some requests itself. Every answer is entered in the analytics.
--
-- The files, and the sources that they are about:
--   * Base: the names that all share, tests into Bool, lists and maps over the native numbers.
--   * Pool: the backends of src/config/backends.js. An assignment to a field of a backend that `find`
--     returned is `modify` at its id, which is how the aliasing of the shared objects is kept.
--   * Circuit: src/resilience/circuitBreakerManager.js, with the events it emits. Circuit/Steps has
--     the calls as data and the textbook breaker, Circuit/Sync the pool, Circuit/Edges the log of
--     state changes, Circuit/Counting the numbers of requests and failures.
--   * Health: src/health/healthStore.js and the override of src/health/healthRoutes.js. Health/Window
--     has the statistics, Health/Rotation the flag `healthy`, Health/Summary the traffic light,
--     Health/Override the administrator, Health/Monitor src/health/healthMonitor.js.
--   * Drain: src/admin/connectionDrainManager.js and the count of connections of
--     src/proxy/proxyMiddleware.js. Drain/Lifecycle has its life cycle, Drain/Rejoin a drain under a
--     health check.
--   * Gateway: the operations of these components, the router and the routes of the API on the one pool,
--     in any order. Gateway/Untouched and Gateway/Connections have the count of connections,
--     Gateway/Targets which backends get requests, Gateway/Outage how their answers take them out of
--     rotation, Gateway/Recovery how service comes back.
--   * Strategy: the five strategies of src/routing/strategies. Strategy/Gcd has the arithmetic of
--     the weights, Strategy/Weighted/Ends the end of the loop, Strategy/ConsistentHash the ring with
--     its search (Search), its order (Ring) and the loss of a backend (Stable).
--   * RateLimit: src/security/rateLimiter.js, the script for Redis included. RateLimit/Serving has
--     one request, RateLimit/Bound many, RateLimit/Middleware the middleware.
--   * Routing: src/routing/routingEngine.js and src/routing/strategyFactory.js. Routing/Selection has
--     the choice, Routing/Probes the filter by health and circuit breaker.
--   * Metrics: src/metrics/metricsStore.js and metricsCollector.js. Metrics/Windows has the window of samples,
--     Metrics/Cleaning its cleaning, Metrics/Scores the score of a backend.
--   * Proxy: the retries of src/proxy/proxyMiddleware.js. Proxy/Retries has how often a request is sent.
--   * Http: the request, the address of a client (getClientIp of src/utils/helpers.js), the headers of
--     src/proxy/proxyUtils.js, and src/middleware/tlsRedirect.js and errorHandler.js.
--     Http/Forwarding has what a server behind the proxy gets to know.
--   * Security: src/security/securityLogger.js, ipBlocklist.js, headerValidator.js and jwtMiddleware.js.
--     Security/Log has the window of the log, Security/Blocking the set of addresses, Security/Waf
--     src/security/wafMiddleware.js with its scan (Scanning), Security/Gate the filters in the order of
--     src/app.js, Security/Tokens the check of tokens, Security/Anomaly src/security/anomalyDetector.js
--     with its counters (Counting), the penalties (Enforcing) and a client that it never sees (Unseen).
--   * Cache: src/cache/cacheService.js. Cache/Requests has src/cache/cacheMiddleware.js, Cache/Storing
--     what the store gives back, Cache/Origin where a hit comes from, Cache/Counting the statistics.
--   * Analytics: src/analytics/analyticsDb.js, analyticsCollector.js and aggregationWorker.js.
--     Analytics/Summing has the totals, Analytics/Groups the reports of the backends,
--     Analytics/Storing the stores in memory, Analytics/Worker the rollups with their waits: that no two
--     overlap (Exclusion), and that one whose parts run without a break is the step of Analytics (Alone).
--   * Api: the routes of src/api, src/resilience/resilienceRoutes.js, src/metrics/metricsRoutes.js and
--     src/cache/cacheRoutes.js; Api/Security has src/security/securityRoutes.js, Api/Analytics
--     src/analytics/analyticsRoutes.js, Api/Guarding the check of tokens before a handler,
--     Api/Reading the handlers that only read, Api/Table the routes in the order of src/app.js,
--     Api/Resetting the reset of all breakers, Api/Weights and Api/Rates the weights and the rates.
--   * Pipeline: the order of the handlers in src/app.js. Pipeline/Admission and Pipeline/Serving have who
--     gets through and what follows, Pipeline/Bodies the body of a request, Pipeline/Penalties whom a
--     penalty meets.
--   * Settings: src/config/index.js.
--   * Process: src/index.js, a step relation over what the runtime reports. Process/Shutdown has the
--     graceful exit, Process/Deadline the forced one, Process/Https what happens to the HTTPS server.
--   * Observability: src/observability, and src/middleware/correlationId.js, responseTimer.js and
--     requestLogger.js. Observability/Correlation has the identifier of a request.
--   * Dashboard: dashboard/src/App.tsx, with what the gateway makes of its calls in Dashboard/Calls.
--   * Sample: backends/server.js, with what its callers can rely on in Sample/Answers.
--   * Tests: concrete runs, on a pool of three backends and on a few requests.
--
-- Operations take the state and return the new one, with the answer where there is one. A method that
-- reads the clock takes the reading as an argument. An exception, a null and a missing key are values
-- of an Option or of a data type. Numbers are natural numbers: differences that the source compares
-- are written as sums, and its `Math.max(0, ...)` is the truncated difference. The hash of IpHash is
-- 32 bits wide, with the wrap-around written out. Floating-point amounts are scaled to whole numbers:
-- the tokens of a bucket by the length of the window, percentages and latencies by the decimals to
-- which the source rounds. The rounding errors of the floats are not modelled, nor is a rate limit of
-- 0 requests, for which the source divides by 0.
--
-- Two loops have fuel. The binary search of the ring has one round more than the ring has entries,
-- and the loop of weighted round robin one round more than the number of members times the current weight
-- plus three; the theorems on their results show that this is enough. The loop of `gcd` is recursion on
-- the accessibility of its second number.
--
-- Parameters stand for what the source imports: the MD5 prefix and the decimal of a number in
-- Strategy/ConsistentHash, the product of weight and score in Strategy/Weighted, the scores of the
-- metrics store in Strategy/LeastConnections, the client's key or address in all of them; the outcome
-- of a `fetch` in Health/Monitor; the reply and failure of Redis in RateLimit; the random number,
-- the routes and the outcomes of the attempts in Proxy; the string methods `split` and `trim` in Http;
-- the test of a regular expression and the verification of a token in Security; the floating-point
-- arithmetic in Security/Anomaly; the Redis client, JSON and the decoding of bytes in Cache; the
-- MongoDB client in Analytics; the environment and its numbers in Settings; whether the certificates
-- can be read in Process; whether cors answers a request, what the body parsers make of it and whether a
-- route answers it in Pipeline, and how Express matches a path in Api/Table; the random numbers in Sample; the texts of dates and identifiers in
-- Observability. The theorems on Cache and Http name what they use of these.
--
-- Not modelled: the text of the logs, the formatting of dates, the header `X-RateLimit-Reset`, the inside
-- of Express, of its body parsers and of cors, which are parameters, helmet, a negative number where the source
-- parses one, other than a weight, a name that every object of the language inherits in place of the
-- name of an algorithm, and what happens across the waits of one asynchronous method: a lookup in the
-- cache is one step. The telemetry and the layout of the dashboard are left out too.
pub mod Base
pub mod Pool
pub mod Circuit
pub mod Health
pub mod Drain
pub mod Gateway
pub mod Strategy
pub mod RateLimit
pub mod Routing
pub mod Metrics
pub mod Proxy
pub mod Cache
pub mod Http
pub mod Security
pub mod Analytics
pub mod Api
pub mod Pipeline
pub mod Settings
pub mod Sample
pub mod Dashboard
pub mod Process
pub mod Observability
pub mod Tests
