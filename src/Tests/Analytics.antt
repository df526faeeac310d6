-- ===== src/Tests/Analytics.antt =====
-- Runs of the analytics in memory: three requests in a minute.
use sentinel_adc.Base.{
  ℕ, ◌≤◌, ◌≡◌, refl, String, true, false, none, some, List, [], ◌∷◌, arith, lookup, if◌then◌else◌,
  insert, In, here, filter, leb, length,
}
use sentinel_adc.Cache.{failed, replied}
use sentinel_adc.Analytics.{
  LogRecord, Totals, Mongo, AnalyticsDb, aggregate_logs, aggregate_backends, rollup, BackendReport,
  group_logs, report,
}
use sentinel_adc.Analytics.Summing.{rollup-bounds}
use sentinel_adc.Analytics.Groups.{of_backend, IsReport, aggregate_backends-IsReport}
use sentinel_adc.Analytics.Worker.{
  Rollups, Event, starts, stops, ticks, resumes, replacement, insertion,
}
use sentinel_adc.Analytics.Worker as Worker
use sentinel_adc.Analytics.Worker.Exclusion.{rollups_exclusive}
use sentinel_adc.Analytics.Storing.{inserts, rolls, run, IsKept, run-IsKept}

abbrev entry : ℕ → ℕ → String → LogRecord
entry timestamp latency backend = record {
  request_id = none;
  timestamp = timestamp;
  ip = "1.2.3.4";
  method = "GET";
  path = "/a";
  url = "/a";
  status_code = 200;
  latency = latency;
  backend_id = some backend;
  backend_url = none;
  cache_status = none;
  payload_size_bytes = 10;
  user_agent = "curl";
  referer = none;
}

abbrev logs : List LogRecord
logs = entry 60100 120 "a" ∷ entry 60200 340 "b" ∷ entry 60300 200 "a" ∷ []

abbrev summed : Totals
summed = record {
  request_count = 3;
  total_latency = 660;
  min_latency = 120;
  max_latency = 340;
  success_count = 3;
  error_count = 0;
  cache_hit_count = 0;
  bytes_transferred = 30;
}

aggregated : aggregate_logs 60000 120000 logs ≡ some summed
unfolding aggregate_logs filter
aggregated = refl

rollup-bounds_example :
    ((rollup 60000 61000 summed).min_latency ≤ (rollup 60000 61000 summed).average_latency)
    × ((rollup 60000 61000 summed).average_latency ≤ (rollup 60000 61000 summed).max_latency)
    × ((rollup 60000 61000 summed).error_rate ≤ 10000)
    × ((rollup 60000 61000 summed).cache_hit_ratio ≤ 10000)
rollup-bounds_example = rollup-bounds 60000 61000 60000 120000 logs summed aggregated

abbrev of_a : BackendReport
of_a = record {
  backend_id = "a";
  backend_url = none;
  request_count = 2;
  average_latency = 160;
  error_count = 0;
  cache_hit_count = 0;
}

reported : In of_a (aggregate_backends 60000 logs)
unfolding aggregate_backends filter lookup insert group_logs report
reported = here

aggregate_backends-IsReport_example :
    IsReport (filter (of_backend "a") (filter (λ l. leb 60000 l.timestamp) logs)) of_a
aggregate_backends-IsReport_example = aggregate_backends-IsReport 60000 logs of_a reported

abbrev pub Nothing : Type 0
Nothing = ℕ

abbrev offline : Mongo Nothing
offline = record {
  insert_log = λ l s. failed;
  insert_aggregate = λ r s. failed;
  aggregate = λ start stop s. failed;
  replace_one = λ r s. failed;
}

abbrev pub db : List LogRecord → AnalyticsDb Nothing
db logs = record {
  enabled = true;
  connected = false;
  use_memory_fallback = true;
  db = 0;
  memory_logs = logs;
  memory_aggregates = [];
}

within : (ls : List LogRecord) → length ls ≤ 1000 → IsKept (db ls)
within ls h = record { logs = h; aggregates = omega arith; unique = tt }

run-IsKept_example :
    IsKept (run offline (rolls false 61000 ∷ inserts (entry 60100 120 "a") ∷ []) (db []))
run-IsKept_example =
    run-IsKept offline (rolls false 61000 ∷ inserts (entry 60100 120 "a") ∷ []) (db [])
      (within [] (omega arith))

-- A worker on a MongoDB, whose query is answered after the next tick.
abbrev overlapping : List Event
overlapping =
    ticks 81000 ∷ resumes 0 (replied (some summed)) ∷ ticks 71000 ∷ ticks 61000 ∷ starts 7 ∷ []

abbrev connected : Rollups Nothing
connected = record {
  worker = record { interval_id = none; running = false };
  db = record (db []) { connected = true; use_memory_fallback = false };
  waiting = [];
}

-- The second tick comes while the query of the first is under way, and starts nothing.
replacing :
    (Worker.run offline overlapping connected).waiting
    ≡ replacement (rollup 60000 61000 summed) ∷ []
unfolding Worker.run
replacing = refl

rollups_exclusive_example :
    (length (Worker.run offline overlapping connected).waiting
      ≡ (if (Worker.run offline overlapping connected).worker.running then 1 else 0))
    × ((Worker.run offline
          (resumes 0 failed ∷ resumes 0 failed ∷ overlapping)
          connected).worker.running
        ≡ false)
rollups_exclusive_example = rollups_exclusive offline overlapping connected failed failed refl refl
