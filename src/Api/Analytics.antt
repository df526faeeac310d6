-- ===== src/Api/Analytics.antt =====
-- The handlers of src/analytics/analyticsRoutes.js. The queries of MongoDB are arguments: what they
-- give, an exception included; `sort` is the method of arrays, by the time of the bucket. Averages are in hundredths
-- of a millisecond, rates in hundredths of a percent and of a request in a second.
use Prim.Native.String.{◌++◌ as str_append}
use sentinel_adc.Base.{
  ℕ, String, ◌-◌, ◌*◌, Bool, true, false, not, Option, none, some, List, [], leb, filter,
  if◌then◌else◌,
}
use sentinel_adc.Health.{round_div}
use sentinel_adc.Cache.{Reply, failed, replied}
use sentinel_adc.Analytics.{
  AnalyticsDb, Realtime, Rollup, BackendReport, is_active, aggregate_realtime, aggregate_backends,
}
use sentinel_adc.Api.{Served, sends, error}

pub record Indicators : Type 0 where
  pub throughput : ℕ
  pub average_latency : ℕ
  pub success_rate : ℕ
  pub cache_hit_ratio : ℕ
  pub total_requests : ℕ

abbrev pub nothing_yet : Indicators
nothing_yet = record {
  throughput = 0;
  average_latency = 0;
  success_rate = 10000;
  cache_hit_ratio = 0;
  total_requests = 0;
}

unfoldable pub indicators : Option Realtime → Indicators
unfolding round_div
indicators none = nothing_yet
indicators (some t) = record {
  throughput = round_div (t.total_requests * 100) 300;
  average_latency = round_div t.total_latency t.total_requests;
  success_rate = round_div (t.success_count * 10000) t.total_requests;
  cache_hit_ratio = round_div (t.cache_hit_count * 10000) t.total_requests;
  total_requests = t.total_requests;
}

-- What a query gives is sent with the mark that the database is connected; the message of an exception
-- is left off the text of the error.
answered : {A B : Type 0} → String → (A → B) → Reply A → Served (Bool × B)
answered what f failed = error 500 (str_append "Failed to query " what)
answered what f (replied a) = sends (true, f a)

-- `GET /api/analytics/realtime`.
unfoldable pub realtime :
    {S : Type 0} → Reply (Option Realtime) → ℕ → AnalyticsDb S → Served (Bool × Indicators)
unfolding indicators answered aggregate_realtime
realtime query now d =
    if not (is_active d)
    then sends (false, nothing_yet)
    else if d.use_memory_fallback
    then sends (true, indicators (aggregate_realtime (now - 300000) d.memory_logs))
    else answered "realtime metrics" indicators query

-- `GET /api/analytics/historical`.
unfoldable pub historical :
    {S : Type 0}
    → (List Rollup → List Rollup)
    → Reply (List Rollup)
    → ℕ
    → AnalyticsDb S
    → Served (Bool × List Rollup)
unfolding answered
historical sort query now d =
    if not (is_active d)
    then sends (false, [])
    else if d.use_memory_fallback
    then sends (true, sort (filter (λ r. leb (now - 3600000) r.time_bucket) d.memory_aggregates))
    else answered "historical timeline" (λ rs. rs) query

-- `GET /api/analytics/backends`.
unfoldable pub backends :
    {S : Type 0}
    → Reply (List BackendReport)
    → ℕ
    → AnalyticsDb S
    → Served (Bool × List BackendReport)
unfolding answered aggregate_backends
backends query now d =
    if not (is_active d)
    then sends (false, [])
    else if d.use_memory_fallback
    then sends (true, aggregate_backends (now - 1800000) d.memory_logs)
    else answered "backend workload split" (λ rs. rs) query
