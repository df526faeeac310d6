-- ===== src/Api/Rates.antt =====
-- The rates that the analytics send.
use sentinel_adc.Base.{ℕ, ◌+◌, ◌≤◌, ◌≡◌, refl, List, [], ◌∷◌, length, filter, leb, arith}
use sentinel_adc.Health.Window.{round_div-le}
use sentinel_adc.Analytics.{
  LogRecord, Realtime, count_log, count_logs, realtime_of, aggregate_realtime,
}
use sentinel_adc.Api.Analytics.{indicators}

count_logs-le :
    (t : Realtime) (ls : List LogRecord)
    → ((count_logs t ls).total_requests ≡ t.total_requests)
      × ((count_logs t ls).success_count ≤ t.success_count + length ls)
      × ((count_logs t ls).cache_hit_count ≤ t.cache_hit_count + length ls)
unfolding count_logs
count_logs-le t [] = ground arith
count_logs-le t (l ∷ ls) =
    let ih = count_logs-le (count_log l t) ls in unfold count_log in ground arith

of_list :
    (ls : List LogRecord)
    → ((indicators (realtime_of ls)).success_rate ≤ 10000)
      × ((indicators (realtime_of ls)).cache_hit_ratio ≤ 10000)
      × ((indicators (realtime_of ls)).total_requests ≡ length ls)
unfolding realtime_of indicators
of_list [] = (omega arith, omega arith, refl)
of_list (l ∷ ls) =
    let start : Realtime = record {
      total_requests = length (l ∷ ls);
      total_latency = 0;
      success_count = 0;
      cache_hit_count = 0;
    } in
    let (count, success, hit) = count_logs-le start (l ∷ ls) in
    (
      round_div-le _ _ 10000 (omega (arith, count)) (omega (arith, count, success)),
      round_div-le _ _ 10000 (omega (arith, count)) (omega (arith, count, hit)),
      count,
    )

-- In what the last minutes give, the success rate and the ratio of hits are at most a hundred percent,
-- and the number of requests is that of the records.
pub indicators_bounds :
    (since : ℕ) (logs : List LogRecord)
    → ((indicators (aggregate_realtime since logs)).success_rate ≤ 10000)
      × ((indicators (aggregate_realtime since logs)).cache_hit_ratio ≤ 10000)
      × ((indicators (aggregate_realtime since logs)).total_requests
          ≡ length (filter (λ l. leb since l.timestamp) logs))
unfolding aggregate_realtime
indicators_bounds since logs = of_list (filter (λ l. leb since l.timestamp) logs)
