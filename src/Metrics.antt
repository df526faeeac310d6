-- ===== src/Metrics.antt =====
-- The metrics store (src/metrics/metricsStore.js). A latency is in hundredths of a millisecond, as
-- the timer of the collector rounds it, and an error rate in hundredths of a percent. A score is
-- computed in thousandths of a point before it is rounded.
pub mod Windows
pub mod Cleaning
pub mod Scores
use sentinel_adc.Base.{
  ℕ, ◌+◌, ◌-◌, ◌*◌, min, String, Bool, true, false, Option, none, some, List, [], ◌∷◌, ◌++◌, map,
  Dict, lookup, insert, ltb, leb, ◌==◌, if◌then◌else◌, length, drop, filter,
}
use sentinel_adc.Pool.{Pool, Backend, find}
use sentinel_adc.Health.{round_div}
use sentinel_adc.Http.{truthy}

pub record Sample : Type 0 where
  pub latency : ℕ
  pub error : Bool
  pub timestamp : ℕ

pub record MetricsStore : Type 0 where
  pub history : Dict (List Sample)
  pub pool : Pool

abbrev pub window_ms : ℕ
window_ms = 60000

abbrev pub sample_limit : ℕ
sample_limit = 100

unfoldable pub init_history : Pool → Dict (List Sample) → Dict (List Sample)
init_history [] d = d
init_history (b ∷ bs) d = init_history bs (insert b.id [] d)

-- `timestamp > now - windowMs`, as a sum.
abbrev pub is_recent : ℕ → Sample → Bool
is_recent now s = ltb now (s.timestamp + window_ms)

-- The two steps of `cleanup` on one list.
unfoldable pub clean : ℕ → List Sample → List Sample
unfolding filter
clean now xs =
    let filtered = filter (is_recent now) xs in
    if ltb sample_limit (length filtered)
    then drop (length filtered - sample_limit) filtered
    else filtered

cleaned : String → ℕ → Option (List Sample) → MetricsStore → MetricsStore
unfolding clean
cleaned id now none st = st
cleaned id now (some xs) st = record st { history = insert id (clean now xs) st.history }

unfoldable pub cleanup : String → ℕ → MetricsStore → MetricsStore
unfolding cleaned
cleanup id now st = cleaned id now (lookup id st.history) st

pushed : String → Sample → Option (List Sample) → MetricsStore → MetricsStore
pushed id s none st = st
pushed id s (some xs) st = record st { history = insert id (xs ++ s ∷ []) st.history }

-- `now` and `at` are the readings of the clock of `recordTransaction` and of its `cleanup`.
unfoldable pub record_transaction : String → ℕ → Bool → ℕ → ℕ → MetricsStore → MetricsStore
unfolding pushed cleanup
record_transaction id latency error now at st = cleanup id at (
    pushed id (record { latency = latency; error = error; timestamp = now }) (lookup id st.history)
      st)

unfoldable pub sum_latency : List Sample → ℕ
sum_latency [] = 0
sum_latency (s ∷ xs) = s.latency + sum_latency xs

unfoldable pub average_latency : List Sample → ℕ
unfolding sum_latency round_div
average_latency xs = if length xs == 0 then 0 else round_div (sum_latency xs) (length xs)

unfoldable pub error_rate : List Sample → ℕ
unfolding filter round_div
error_rate xs =
    if length xs == 0 then 0 else round_div (length (filter (λ s. s.error) xs) * 10000) (length xs)

-- The three penalties, and the truncated difference for `Math.max(0, ...)`.
unfoldable pub calculate_score : Backend → ℕ → ℕ → ℕ → ℕ
unfolding round_div
calculate_score b avg_latency rate active =
    let penalty = min 40000 avg_latency + rate * 5 + min 30000 (active * 5000) in
    if b.healthy then round_div (100000 - penalty) 1000 else 0

pub record BackendMetrics : Type 0 where
  pub backend : Backend
  pub request_count : ℕ
  pub average : ℕ
  pub rate : ℕ
  pub score : ℕ

measured : Option Backend → Option (List Sample) → Option BackendMetrics
unfolding average_latency error_rate calculate_score
measured (some b) (some xs) = some (record {
  backend = b;
  request_count = length xs;
  average = average_latency xs;
  rate = error_rate xs;
  score = calculate_score b (average_latency xs) (error_rate xs) b.active_connections;
})
measured _ _ = none

unfoldable pub get_backend_metrics :
    String → ℕ → MetricsStore → Option BackendMetrics × MetricsStore
unfolding cleanup measured
get_backend_metrics id now st =
    let st' = cleanup id now st in (measured (find id st'.pool) (lookup id st'.history), st')

get_each : List Backend → ℕ → MetricsStore → List (Option BackendMetrics) × MetricsStore
unfolding get_backend_metrics
get_each [] now st = ([], st)
get_each (b ∷ bs) now st =
    let (r, st') = get_backend_metrics b.id now st in
    let (rs, st'') = get_each bs now st' in (r ∷ rs, st'')

-- `getAllMetrics`, at one reading of the clock.
unfoldable pub get_all_metrics : ℕ → MetricsStore → List (Option BackendMetrics) × MetricsStore
unfolding get_each
get_all_metrics now st = get_each st.pool now st

-- The collector (src/metrics/metricsCollector.js): the backend that the router has noted on the
-- request, and the latency since the start that the timer of responses has noted, if there is one.
collect : Option String → Option ℕ → Bool → ℕ → ℕ → MetricsStore → MetricsStore
unfolding record_transaction
collect (some id) (some latency) error now at st = record_transaction id latency error now at st
collect _ _ error now at st = st

unfoldable pub collect_proxy_response :
    Option String → Option ℕ → ℕ → ℕ → ℕ → MetricsStore → MetricsStore
unfolding collect
collect_proxy_response backend_id latency status now at st =
    collect (truthy backend_id) latency (leb 500 status) now at st

unfoldable pub collect_proxy_error : Option String → Option ℕ → ℕ → ℕ → MetricsStore → MetricsStore
unfolding collect
collect_proxy_error backend_id latency now at st =
    collect (truthy backend_id) latency true now at st
