-- ===== src/Api.antt =====
-- The handlers of the API: src/api/adminRoutes.js and statusRoutes.js, src/resilience/resilienceRoutes.js,
-- src/metrics/metricsRoutes.js, src/cache/cacheRoutes.js, and in the child modules
-- src/security/securityRoutes.js and src/analytics/analyticsRoutes.js. A handler gets the parsed fields
-- of the body, the query and the path; the uptime, the process information and the time in an answer are
-- left out.
pub mod Security
pub mod Analytics
pub mod Resetting
pub mod Weights
pub mod Guarding
pub mod Rates
pub mod Reading
pub mod Table
use Prim.Native.String.{◌++◌ as str_append}
use sentinel_adc.Base.{
  ℕ, ◌-◌, Bool, true, false, not, String, Option, none, some, List, [], ◌∷◌, str_eq, ltb, ◌==◌,
  length, map, if◌then◌else◌,
}
use sentinel_adc.Pool.{Pool, Backend, Status, find, modify}
use sentinel_adc.Circuit.{Manager, Snapshot, get_all_states, reset}
use sentinel_adc.Routing.{Engine, Algorithm, set_algorithm, get_healthy_backends}
use sentinel_adc.Drain.{Drains, Answer, not_found, drain_backend, undrain_backend}
use sentinel_adc.Metrics.{MetricsStore, BackendMetrics, get_backend_metrics}
use sentinel_adc.Cache.{CacheService, Redis, Json, is_active, flush_all, invalidate_pattern}

-- What a handler sends: an answer, or an error with its status.
pub data Served {ℓ} (A : Type ℓ) : Type ℓ where
  sends : A → Served A
  error : ℕ → String → Served A

-- What `parseInt` makes of a value that is a whole number.
pub data Parsed : Type 0 where
  negative natural : ℕ → Parsed

abbrev pub truthy_or {ℓ} : {A : Type ℓ} → Option String → A → (String → A) → A
truthy_or none missing f = missing
truthy_or (some s) missing f = if str_eq s "" then missing else f s

switched : String → Bool × Engine → Served Algorithm × Engine
switched name (false, e) = (error 400 (str_append "Unknown load balancing algorithm: " name), e)
switched name (true, e) = (sends e.algorithm, e)

-- `PUT /api/admin/algorithm`, with the message of the factory's exception.
unfoldable pub change_algorithm : Option String → Engine → Served Algorithm × Engine
unfolding switched
change_algorithm name e =
    truthy_or name (error 400 "Missing required field: \"algorithm\"", e)
      (λ n. switched n (set_algorithm n e))

-- `PUT /api/admin/backends/:id/weight`; `none` is what is not a number.
weight_found : String → ℕ → Option Backend → Pool → Served Backend × Pool
weight_found id weight none p =
    (error 404 (str_append "Backend with ID \"" (str_append id "\" not found")), p)
weight_found id weight (some b) p =
    (sends (record b { weight = weight }), modify id (λ k. record k { weight = weight }) p)

unfoldable pub change_weight : String → Option Parsed → Pool → Served Backend × Pool
unfolding weight_found
change_weight id none p = (error 400 "Weight must be a non-negative integer", p)
change_weight id (some (negative n)) p = (error 400 "Weight must be a non-negative integer", p)
change_weight id (some (natural n)) p = weight_found id n (find id p) p

drained : String → Answer × Drains → Served Answer × Drains
drained id (not_found, s) =
    (error 404 (str_append "Backend with ID \"" (str_append id "\" not found")), s)
drained id (a, s) = (sends a, s)

abbrev pub seconds_or : ℕ → Option ℕ → ℕ
seconds_or d none = d
seconds_or d (some n) = if n == 0 then d else n

-- `POST /api/admin/backends/:id/drain`, with a timeout that is not negative, and its reverse.
unfoldable pub drain : String → Option ℕ → ℕ → Drains → Served Answer × Drains
unfolding drained
drain id timeout_sec now s = drained id (drain_backend id (seconds_or 30 timeout_sec) now s)

unfoldable pub undrain : String → Drains → Served Answer × Drains
unfolding drained
undrain id s = drained id (undrain_backend id s)

-- `POST /api/resilience/circuit-breakers/reset`.
unfoldable pub reset_circuit : Option String → ℕ → ℕ → Manager → Served (List Snapshot) × Manager
reset_circuit backend_id now at m =
    truthy_or backend_id (error 400 "Missing required parameter \"backendId\"", m)
      (λ id. let (states, m') = reset id now at m in (sends states, m'))

-- The loop of `POST /api/resilience/circuit-breakers/reset-all`.
unfoldable pub reset_each : List Snapshot → ℕ → ℕ → Manager → Manager
reset_each [] now at m = m
reset_each (s ∷ ss) now at m = reset_each ss now at (reset s.backend_id now at m).1

unfoldable pub reset_all : ℕ → ℕ → Manager → Served (List Snapshot) × Manager
unfolding reset_each
reset_all now at m =
    let m' = reset_each (get_all_states now m) now at m in (sends (get_all_states now m'), m')

metrics_found : String → Option BackendMetrics → Served BackendMetrics
metrics_found id none = error 404 (str_append "Backend with ID \"" (str_append id "\" not found"))
metrics_found id (some x) = sends x

-- `GET /api/metrics/:id`.
unfoldable pub metrics_of : String → ℕ → MetricsStore → Served BackendMetrics × MetricsStore
unfolding metrics_found
metrics_of id now st = let (x, st') = get_backend_metrics id now st in (metrics_found id x, st')

pub record Summary : Type 0 where
  pub operational : Bool
  pub algorithm : Algorithm
  pub total : ℕ
  pub healthy : ℕ
  pub unhealthy : ℕ
  pub pool : Pool

-- `GET /api/status`: the filter of the routing engine asks the circuit breakers, which may change them.
unfoldable pub status : ℕ → ℕ → Engine → Summary × Engine
unfolding get_healthy_backends
status now at e =
    let (healthy, m) = get_healthy_backends now at e.circuit in
    (
      record {
        operational = ltb 0 (length healthy);
        algorithm = e.algorithm;
        total = length m.pool;
        healthy = length healthy;
        unhealthy = length m.pool - length healthy;
        pool = m.pool;
      },
      record e { circuit = m },
    )

module _ {S : Type 0} (client : Redis S) (json : Json) where
  -- `DELETE /api/cache`.
  unfoldable pub flush : CacheService S → Served (Unit {0}) × CacheService S
  flush s =
      if not (is_active s)
      then (error 503 "Cache service is currently offline or disabled", s)
      else (sends tt, flush_all client json s)

  purged : CacheService S → Option (ℕ × CacheService S) → Option (Served ℕ × CacheService S)
  purged s none = none
  purged s (some (n, s')) = some (sends n, s')

  -- `DELETE /api/cache/invalidate`; `none` is the exception of the regular expression, which nothing
  -- catches.
  unfoldable pub invalidate :
      (String → Option (String → Bool))
      → Option String
      → CacheService S
      → Option (Served ℕ × CacheService S)
  unfolding purged
  invalidate compile pattern s =
      truthy_or pattern (some (error 400 "Missing required query parameter \"pattern\"", s)) (λ p.
        if not (is_active s)
        then some (error 503 "Cache service is currently offline or disabled", s)
        else purged s (invalidate_pattern client json compile p s))
