-- ===== src/Metrics/Scores.antt =====
-- The score of a backend.
use sentinel_adc.Base.{
  ℕ, ◌+◌, ◌-◌, ◌*◌, ◌≤◌, ◌≡◌, true, false, Option, none, some, List, [], ◌∷◌, arith, min, length,
  filter, length-filter-le, ◌==◌, ◌||◌, String,
}
use sentinel_adc.Pool.{Backend}
use sentinel_adc.Health.{round_div}
use sentinel_adc.Health.Window.{round_div-le}
use sentinel_adc.Metrics.{
  Sample, MetricsStore, BackendMetrics, calculate_score, error_rate, get_backend_metrics, measured,
  average_latency,
}

round_div_mono : (a b : ℕ) → a ≤ b → round_div a 1000 ≤ round_div b 1000
unfolding round_div
round_div_mono a b h = omega arith

penalty_mono :
    (latency rate active latency' rate' active' : ℕ)
    → latency ≤ latency'
    → rate ≤ rate'
    → active ≤ active'
    → 100000 - (min 40000 latency' + rate' * 5 + min 30000 (active' * 5000))
      ≤ 100000 - (min 40000 latency + rate * 5 + min 30000 (active * 5000))
penalty_mono latency rate active latency' rate' active' l r a = omega arith

-- A score is at most 100; more latency, more errors and more connections never raise it; and a backend
-- out of rotation has the score 0.
pub calculate_score_lem :
    (b : Backend) (latency rate active latency' rate' active' : ℕ)
    → latency ≤ latency'
    → rate ≤ rate'
    → active ≤ active'
    → (calculate_score b latency rate active ≤ 100)
      × (calculate_score b latency' rate' active' ≤ calculate_score b latency rate active)
      × ((b.healthy || calculate_score b latency rate active == 0) ≡ true)
unfolding calculate_score
calculate_score_lem b latency rate active latency' rate' active' l r a =
    let less = penalty_mono latency rate active latency' rate' active' l r a in
    let mono = round_div_mono _ _ less in
    let most =
      round_div-le (100000 - (min 40000 latency + rate * 5 + min 30000 (active * 5000))) 1000 100
        (omega arith) (omega arith) in
    ground (arith, mono, most)

error_rate-le : (xs : List Sample) → error_rate xs ≤ 10000
unfolding error_rate
error_rate-le [] = omega arith
error_rate-le (s ∷ xs) =
    let n = length-filter-le (λ (x : Sample). x.error) (s ∷ xs) in
    let some_samples : (length (s ∷ xs) == 0) ≡ false = ground arith in
    rw some_samples (
      round_div-le (length (filter (λ (x : Sample). x.error) (s ∷ xs)) * 10000) (length (s ∷ xs))
        10000 (omega arith) (omega (arith, n)))

-- The rate is a percentage, and the score is at most 100.
abbrev pub IsSound : Option BackendMetrics → Type 0
IsSound none = Unit
IsSound (some r) = (r.rate ≤ 10000) × (r.score ≤ 100)

measured-IsSound : (b : Option Backend) (xs : Option (List Sample)) → IsSound (measured b xs)
unfolding measured
measured-IsSound none none = tt
measured-IsSound none (some xs) = tt
measured-IsSound (some b) none = tt
measured-IsSound (some b) (some xs) = (
  error_rate-le xs,
  (calculate_score_lem b (average_latency xs) (error_rate xs) b.active_connections
      (average_latency xs) (error_rate xs) b.active_connections (omega arith) (omega arith)
      (omega arith)).0,
)

-- Whatever was recorded, the metrics of a backend have an error rate of at most 100 percent and a score
-- of at most 100.
pub get_backend_metrics-IsSound :
    (id : String) (now : ℕ) (st : MetricsStore) → IsSound (get_backend_metrics id now st).0
unfolding get_backend_metrics
get_backend_metrics-IsSound id now st = measured-IsSound _ _
