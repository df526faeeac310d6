-- ===== src/Api/Reading.antt =====
-- The handlers that only read: src/health/healthRoutes.js, src/metrics/metricsRoutes.js, src/api/adminRoutes.js,
-- src/resilience/resilienceRoutes.js and src/cache/cacheRoutes.js. The time in an answer is left out.
use Prim.Native.String.{◌++◌ as str_append}
use sentinel_adc.Base.{ℕ, Bool, String, Option, none, some, List}
use sentinel_adc.Pool.{Pool}
use sentinel_adc.Health.{
  Store, Overall, BackendHealth, get_gateway_overall_health, get_all_backend_health,
  get_backend_health,
}
use sentinel_adc.Metrics.{MetricsStore, BackendMetrics, get_all_metrics}
use sentinel_adc.Circuit.{Manager, Snapshot, get_all_states}
use sentinel_adc.Routing.{Engine, Algorithm, get_available_algorithms}
use sentinel_adc.Cache.{CacheService, Report, get_stats}
use sentinel_adc.Api.{Served, sends, error}

-- `GET /api/health`.
unfoldable pub health_summary : Store → Overall × List (Option BackendHealth)
health_summary st = (get_gateway_overall_health st, get_all_backend_health st)

health_found : String → Option BackendHealth → Served BackendHealth
health_found id none = error 404 (str_append "Backend with ID \"" (str_append id "\" not found"))
health_found id (some h) = sends h

-- `GET /api/health/:id`.
unfoldable pub health_of : String → Store → Served BackendHealth
unfolding health_found
health_of id st = health_found id (get_backend_health id st)

-- `GET /api/metrics`.
unfoldable pub all_metrics : ℕ → MetricsStore → List (Option BackendMetrics) × MetricsStore
all_metrics now st = get_all_metrics now st

-- `GET /api/admin/algorithm`.
unfoldable pub current_algorithm : Engine → Algorithm × List String
current_algorithm e = (e.algorithm, get_available_algorithms)

-- `GET /api/admin/backends`.
unfoldable pub list_backends : Engine → Pool
list_backends e = e.circuit.pool

-- `GET /api/resilience/circuit-breakers`.
unfoldable pub circuit_breakers : ℕ → Manager → Bool × ℕ × ℕ × List Snapshot
circuit_breakers now m =
    (m.config.enabled, m.config.failure_threshold, m.config.cooldown_ms, get_all_states now m)

-- `GET /api/cache/stats`.
unfoldable pub cache_stats : {S : Type 0} → CacheService S → Report
cache_stats s = get_stats s.stats
