-- ===== src/Health.antt =====
-- The health store (src/health/healthStore.js) and the manual override of src/health/healthRoutes.js.
-- A latency is a whole number of nanoseconds, as the monitor measures it, and `now` is the reading
-- of the clock. `averageLatency` is in hundredths of a millisecond and `uptimePercentage` in
-- hundredths of a percent, the unit to which the code rounds; `successRate` is kept as the fraction
-- that the code turns into a percentage.
pub mod Window
pub mod Rotation
pub mod Summary
pub mod Override
pub mod Monitor
use sentinel_adc.Base.{
  ℕ, suc, ◌+◌, ◌-◌, ◌*◌, ◌/◌, String, Bool, true, false, not, ◌&&◌, ◌||◌, Option, none, some, List,
  [], ◌∷◌, ◌++◌, map, Dict, lookup, insert, leb, ltb, ◌==◌, if◌then◌else◌, length, drop, filter,
}
use sentinel_adc.Pool.{Pool, Backend, Status, unhealthy, degraded, find, modify}

pub record Check : Type 0 where
  pub success : Bool
  pub latency : ℕ
  pub timestamp : ℕ

pub record Stats : Type 0 where
  pub checks : List Check
  pub consecutive_failures : ℕ
  pub consecutive_successes : ℕ
  pub total_checks : ℕ
  pub successful_checks : ℕ
  pub average_latency : ℕ
  pub uptime_percentage : ℕ
  -- the successes and the length of the window, `successRate` being their quotient times 100
  pub recent_successes : ℕ
  pub recent_checks : ℕ
  pub last_check_time : Option ℕ

pub record Store : Type 0 where
  pub stats : Dict Stats
  pub pool : Pool

abbrev pub history_limit : ℕ
history_limit = 20

unfoldable pub initial_stats : Stats
initial_stats = record {
  checks = [];
  consecutive_failures = 0;
  consecutive_successes = 0;
  total_checks = 0;
  successful_checks = 0;
  average_latency = 0;
  uptime_percentage = 10000;
  recent_successes = 0;
  recent_checks = 0;
  last_check_time = none;
}

-- The constructor.
unfoldable pub init_stats : Pool → Dict Stats → Dict Stats
unfolding initial_stats
init_stats [] d = d
init_stats (b ∷ bs) d = init_stats bs (insert b.id initial_stats d)

-- `Math.round(a / b)` of natural numbers, halves rounded up.
unfoldable pub round_div : ℕ → ℕ → ℕ
round_div a b = (2 * a + b) / (2 * b)

unfoldable pub total_latency : List Check → ℕ
total_latency [] = 0
total_latency (c ∷ cs) = c.latency + total_latency cs

-- The counters of `recordResult`.
count_result : Bool → ℕ → Stats → Stats
count_result true now s = record s {
  total_checks = s.total_checks + 1;
  last_check_time = some now;
  successful_checks = s.successful_checks + 1;
  consecutive_failures = 0;
  consecutive_successes = s.consecutive_successes + 1;
}
count_result false now s = record s {
  total_checks = s.total_checks + 1;
  last_check_time = some now;
  consecutive_failures = s.consecutive_failures + 1;
  consecutive_successes = 0;
}

-- `push`, then `shift` if the window is longer than its limit.
unfoldable pub slide : Check → List Check → List Check
slide c cs =
    let pushed = cs ++ c ∷ [] in if ltb history_limit (length pushed) then drop 1 pushed else pushed

-- The metrics of the window. A millisecond is 10 ^ 6 nanoseconds.
recalculate : Stats → Stats
unfolding round_div total_latency filter
recalculate s = record s {
  recent_successes = length (filter (λ c. c.success) s.checks);
  recent_checks = length s.checks;
  average_latency = round_div (total_latency s.checks) (10000 * length s.checks);
  uptime_percentage = round_div (s.successful_checks * 10000) s.total_checks;
}

unfoldable pub count_check : Bool → ℕ → ℕ → Stats → Stats
unfolding count_result slide recalculate
count_check success latency now s =
    let s' = count_result success now s in
    recalculate (record s' {
      checks = slide (record { success = success; latency = latency; timestamp = now }) s'.checks;
    })

-- `updateBackendHealthState`. `successRate < 90` is compared without the division.
unfoldable pub update_backend_health_state : Stats → Backend → Backend
update_backend_health_state s b =
    if b.admin_disabled
    then record b { healthy = false; status = unhealthy }
    else if leb 3 s.consecutive_failures
    then record b { healthy = false; status = unhealthy }
    else if leb 2 s.consecutive_successes && not b.healthy
    then record b { healthy = true; status = Status.healthy }
    else if ltb 0 s.consecutive_failures || ltb (s.recent_successes * 100) (90 * s.recent_checks)
    then record b { status = degraded; healthy = ltb s.consecutive_failures 3 }
    else record b { healthy = true; status = Status.healthy }

recorded : String → Bool → ℕ → ℕ → Option Stats → Store → Store
unfolding count_check update_backend_health_state
recorded id success latency now none st = st
recorded id success latency now (some s) st =
    let s' = count_check success latency now s in
    record {
      stats = insert id s' st.stats;
      pool = modify id (update_backend_health_state s') st.pool;
    }

unfoldable pub record_result : String → Bool → ℕ → ℕ → Store → Store
unfolding recorded
record_result id success latency now st = recorded id success latency now (lookup id st.stats) st

pub record BackendHealth : Type 0 where
  pub backend : Backend
  pub stats : Stats

both : Option Stats → Option Backend → Option BackendHealth
both (some s) (some b) = some (record { backend = b; stats = s })
both _ _ = none

unfoldable pub get_backend_health : String → Store → Option BackendHealth
unfolding both
get_backend_health id st = both (lookup id st.stats) (find id st.pool)

unfoldable pub get_all_backend_health : Store → List (Option BackendHealth)
unfolding get_backend_health
get_all_backend_health st = map (λ b. get_backend_health b.id st) st.pool

pub data Overall : Type 0 where
  green yellow red : Overall

abbrev pub is_status_healthy : Status → Bool
is_status_healthy Status.healthy = true
is_status_healthy _ = false

unfoldable pub get_gateway_overall_health : Store → Overall
unfolding filter
get_gateway_overall_health st =
    let healthy_count = length (filter (λ b. b.healthy && is_status_healthy b.status) st.pool) in
    if healthy_count == length st.pool then green else if ltb 0 healthy_count then yellow else red

override_stats : Bool → Stats → Stats
override_stats healthy s = record s {
  consecutive_failures = if healthy then 0 else 3;
  consecutive_successes = if healthy then 2 else 0;
}

override_dict : Bool → String → Option Stats → Dict Stats → Dict Stats
unfolding override_stats
override_dict healthy id none d = d
override_dict healthy id (some s) d = insert id (override_stats healthy s) d

override_found : Bool → String → Option Backend → Store → Option Store
unfolding override_dict
override_found healthy id none st = none
override_found healthy id (some b) st = some (record {
  stats = override_dict healthy id (lookup id st.stats) st.stats;
  pool =
      modify id
        (λ k. record k {
          admin_disabled = not healthy;
          healthy = healthy;
          status = if healthy then Status.healthy else unhealthy;
        })
        st.pool;
})

-- `POST /api/health/:id/override` with a Boolean `healthy`; `none` is the answer 404.
unfoldable pub override : String → Bool → Store → Option Store
unfolding override_found
override id healthy st = override_found healthy id (find id st.pool) st
