-- ===== src/Analytics/Summing.antt =====
-- What the loops over the request log compute.
use sentinel_adc.Base.{
  ℕ, suc, ◌+◌, ◌*◌, ◌≤◌, ◌<◌, ◌≡◌, ◌⊎◌, refl, subst, Bool, true, none, some, List, [], ◌∷◌, All,
  length, filter, ltb, if◌then◌else◌, inl, inr, arith,
}
use sentinel_adc.Health.{round_div}
use sentinel_adc.Health.Window.{round_div-le}
use sentinel_adc.Analytics.{
  LogRecord, Totals, add_log, add_logs, totals, aggregate_logs, in_window, succeeds, hits, rollup,
}

-- The sum of an amount, and the number of records that pass a test.
abbrev pub sum_of : (LogRecord → ℕ) → List LogRecord → ℕ
sum_of f [] = 0
sum_of f (l ∷ ls) = f l + sum_of f ls

abbrev pub number_of : (LogRecord → Bool) → List LogRecord → ℕ
number_of p [] = 0
number_of p (l ∷ ls) = if p l then suc (number_of p ls) else number_of p ls

number_of-le : (p : LogRecord → Bool) (ls : List LogRecord) → number_of p ls ≤ length ls
number_of-le p [] = omega arith
number_of-le p (l ∷ ls) = ground (arith, number_of-le p ls)

-- What the loop adds to the totals that it is given.
abbrev Adds : List LogRecord → Totals → Totals → Type 0
Adds ls t t' =
    (t'.request_count ≡ t.request_count)
    × (t'.total_latency ≡ t.total_latency + sum_of (λ l. l.latency) ls)
    × (t'.bytes_transferred ≡ t.bytes_transferred + sum_of (λ l. l.payload_size_bytes) ls)
    × (t'.success_count ≡ t.success_count + number_of succeeds ls)
    × (t'.success_count + t'.error_count ≡ t.success_count + t.error_count + length ls)
    × (t'.cache_hit_count ≡ t.cache_hit_count + number_of hits ls)

add_logs-Adds : (t : Totals) (ls : List LogRecord) → Adds ls t (add_logs t ls)
unfolding add_logs
add_logs-Adds t [] = ground arith
add_logs-Adds t (l ∷ ls) = let ih = add_logs-Adds (add_log l t) ls in unfold add_log in ground arith

-- Every latency lies between the two bounds.
abbrev Within : ℕ → ℕ → List LogRecord → Type 0
Within low high ls = All (λ l. (low ≤ l.latency) × (l.latency ≤ high)) ls

step-bounds :
    (l : LogRecord) (t : Totals)
    → (((add_log l t).min_latency ≤ t.min_latency) × ((add_log l t).min_latency ≤ l.latency))
      × ((t.max_latency ≤ (add_log l t).max_latency) × (l.latency ≤ (add_log l t).max_latency))
unfolding add_log
step-bounds l t = ground arith

add_logs-bounds :
    (t : Totals) (ls : List LogRecord)
    → ((add_logs t ls).min_latency ≤ t.min_latency)
      × (t.max_latency ≤ (add_logs t ls).max_latency)
      × Within (add_logs t ls).min_latency (add_logs t ls).max_latency ls
unfolding add_logs
add_logs-bounds t [] = (omega arith, omega arith, tt)
add_logs-bounds t (l ∷ ls) =
    let (low, high, within) = add_logs-bounds (add_log l t) ls in
    let ((a, a'), (b, b')) = step-bounds l t in
    (
      omega (arith, low, a),
      omega (arith, high, b),
      ((omega (arith, low, a'), omega (arith, high, b')), within),
    )

Within-sum :
    (low high : ℕ) (ls : List LogRecord)
    → Within low high ls
    → (low * length ls ≤ sum_of (λ l. l.latency) ls)
      × (sum_of (λ l. l.latency) ls ≤ high * length ls)
Within-sum low high [] h = (omega arith, omega arith)
Within-sum low high (l ∷ ls) ((a, b), h) =
    let (c, d) = Within-sum low high ls h in (omega (arith, a, c), omega (arith, b, d))

-- What the totals say of the records that they count.
pub record IsTotal (ls : List LogRecord) (t : Totals) : Type 0 where
  pub request_count : t.request_count ≡ length ls
  pub nonempty : 0 < t.request_count
  pub total_latency : t.total_latency ≡ sum_of (λ l. l.latency) ls
  pub bytes_transferred : t.bytes_transferred ≡ sum_of (λ l. l.payload_size_bytes) ls
  pub success_count : t.success_count ≡ number_of succeeds ls
  pub error_count : t.success_count + t.error_count ≡ t.request_count
  pub cache_hit_count : t.cache_hit_count ≡ number_of hits ls
  pub within : Within t.min_latency t.max_latency ls

-- The totals before the loop.
abbrev initial : LogRecord → List LogRecord → Totals
initial l ls = record {
  request_count = length (l ∷ ls);
  total_latency = 0;
  min_latency = l.latency;
  max_latency = l.latency;
  success_count = 0;
  error_count = 0;
  cache_hit_count = 0;
  bytes_transferred = 0;
}

initial-IsTotal :
    (l : LogRecord) (ls : List LogRecord) → IsTotal (l ∷ ls) (add_logs (initial l ls) (l ∷ ls))
initial-IsTotal l ls =
    let (count, latency, bytes, successes, all_counted, hit) =
      add_logs-Adds (initial l ls) (l ∷ ls) in
    let (low, high, within) = add_logs-bounds (initial l ls) (l ∷ ls) in
    record {
      request_count = omega (arith, count);
      nonempty = omega (arith, count);
      total_latency = omega (arith, latency);
      bytes_transferred = omega (arith, bytes);
      success_count = omega (arith, successes);
      error_count = omega (arith, all_counted, count);
      cache_hit_count = omega (arith, hit);
      within = within;
    }

totals-IsTotal : (ls : List LogRecord) (t : Totals) → totals ls ≡ some t → IsTotal ls t
unfolding totals
totals-IsTotal [] t h = cc
totals-IsTotal (l ∷ ls) t h =
    let e : add_logs (initial l ls) (l ∷ ls) ≡ t = cc in
    subst (IsTotal (l ∷ ls)) e (initial-IsTotal l ls)

IsTotal-cases :
    (ls : List LogRecord)
    → ((totals ls ≡ none) × (ls ≡ [])) ⊎ ((t : Totals) × (totals ls ≡ some t) × IsTotal ls t)
unfolding totals
IsTotal-cases [] = inl (refl, refl)
IsTotal-cases (l ∷ ls) = inr (_, refl, totals-IsTotal (l ∷ ls) _ refl)

-- The totals of a window are those of its records alone: their number, the sums of their latencies and
-- sizes, how many succeed, fail and are hits, with every latency between the least and the greatest; and
-- there are none exactly when no record lies in the window.
pub aggregate_logs_lem :
    (start stop : ℕ) (logs : List LogRecord)
    → ((aggregate_logs start stop logs ≡ none) × (filter (in_window start stop) logs ≡ []))
      ⊎ ((t : Totals) × (aggregate_logs start stop logs ≡ some t)
          × IsTotal (filter (in_window start stop) logs) t)
unfolding aggregate_logs
aggregate_logs_lem start stop logs = IsTotal-cases (filter (in_window start stop) logs)

le-round_div : (a b k : ℕ) → 0 < b → k * b ≤ a → k ≤ round_div a b
unfolding round_div
le-round_div a b k p h = grind arith

-- In the document of a minute the average latency lies between the least and the greatest, and the
-- error rate and the ratio of hits are at most a hundred percent.
pub rollup-bounds :
    (bucket now start stop : ℕ) (logs : List LogRecord) (t : Totals)
    → aggregate_logs start stop logs ≡ some t
    → ((rollup bucket now t).min_latency ≤ (rollup bucket now t).average_latency)
      × ((rollup bucket now t).average_latency ≤ (rollup bucket now t).max_latency)
      × ((rollup bucket now t).error_rate ≤ 10000)
      × ((rollup bucket now t).cache_hit_ratio ≤ 10000)
unfolding rollup aggregate_logs
rollup-bounds bucket now start stop logs t h =
    let ls = filter (in_window start stop) logs in
    let k = totals-IsTotal ls t h in
    let (low, high) = Within-sum t.min_latency t.max_latency ls k.within in
    let positive : ltb 0 t.request_count ≡ true = ground (arith, k.nonempty) in
    let hit = number_of-le hits ls in
    rw positive (
      le-round_div t.total_latency t.request_count t.min_latency k.nonempty
          (rw (k.total_latency, k.request_count) low),
      round_div-le t.total_latency t.request_count t.max_latency k.nonempty
          (rw (k.total_latency, k.request_count) high),
      round_div-le (t.error_count * 10000) t.request_count 10000 k.nonempty
          (omega (arith, k.error_count)),
      round_div-le (t.cache_hit_count * 10000) t.request_count 10000 k.nonempty
          (omega (arith, hit, k.cache_hit_count, k.request_count)),
    )
