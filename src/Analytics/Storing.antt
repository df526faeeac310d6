-- ===== src/Analytics/Storing.antt =====
-- What the stores in memory hold.
use sentinel_adc.Base.{
  ℕ, suc, ◌+◌, ◌≤◌, ◌≡◌, refl, subst, Bool, true, false, not, ◌||◌, Option, none, some, List, [],
  ◌∷◌, ◌++◌, length, length-drop, length-append, ltb, ◌==◌, if◌then◌else◌, Bool-cases, inl, inr,
  arith,
}
use sentinel_adc.Cache.{Reply, failed, replied}
use sentinel_adc.Analytics.{
  LogRecord, Rollup, Totals, Mongo, AnalyticsDb, is_active, push, upsert, cap, insert_log,
  insert_aggregate, run_rollup, aggregate_logs, rollup, bucket_of, saved, queried, kept,
}

-- The document of a minute.
abbrev pub find : ℕ → List Rollup → Option Rollup
find bucket [] = none
find bucket (r ∷ rs) = if r.time_bucket == bucket then some r else find bucket rs

-- No minute has two documents.
abbrev pub IsUnique : List Rollup → Type 0
IsUnique [] = Unit
IsUnique (r ∷ rs) = (find r.time_bucket rs ≡ none) × IsUnique rs

find-upsert :
    (bucket : ℕ) (r : Rollup) (rs : List Rollup)
    → find bucket (upsert r rs) ≡ (if r.time_bucket == bucket then some r else find bucket rs)
unfolding upsert
find-upsert bucket r [] = refl
find-upsert bucket r (x ∷ rs) = ground (arith, find-upsert bucket r rs)

upsert-IsUnique : (r : Rollup) (rs : List Rollup) → IsUnique rs → IsUnique (upsert r rs)
unfolding upsert
upsert-IsUnique r [] u = (refl, tt)
upsert-IsUnique r (x ∷ rs) (fresh, u) = elim (Bool-cases (x.time_bucket == r.time_bucket)) [
  | inl same ↦
      let e : x.time_bucket ≡ r.time_bucket = ground arith in
      rw same (subst (λ b. find b rs ≡ none) e fresh, u)
  | inr other ↦ rw other (ground (arith, find-upsert x.time_bucket r rs), upsert-IsUnique r rs u)
]

cap-IsUnique : (rs : List Rollup) → IsUnique rs → IsUnique (cap 60 rs)
unfolding cap
cap-IsUnique [] u = tt
cap-IsUnique (r ∷ rs) (fresh, u) = elim (Bool-cases (ltb 60 (length (r ∷ rs)))) [
  | inl full ↦ rw full u
  | inr room ↦ rw room (fresh, u)
]

length-upsert-le : (r : Rollup) (rs : List Rollup) → length (upsert r rs) ≤ suc (length rs)
unfolding upsert
length-upsert-le r [] = omega arith
length-upsert-le r (x ∷ rs) = ground (arith, length-upsert-le r rs)

length-cap-le : (rs : List Rollup) → length rs ≤ 61 → length (cap 60 rs) ≤ 60
unfolding cap
length-cap-le rs h = ground (arith, length-drop 1 rs)

length-push-le :
    (l : LogRecord) (ls : List LogRecord) → length ls ≤ 1000 → length (push 1000 l ls) ≤ 1000
unfolding push
length-push-le l ls h = ground (arith, length-append ls (l ∷ []), length-drop 1 (ls ++ l ∷ []))

find-cap-upsert :
    (r : Rollup) (rs : List Rollup)
    → length rs ≤ 60
    → find r.time_bucket (cap 60 (upsert r rs)) ≡ some r
unfolding cap upsert
find-cap-upsert r [] h = ground arith
find-cap-upsert r (x ∷ rs) h = elim (Bool-cases (x.time_bucket == r.time_bucket)) [
  | inl same ↦ rw same (ground arith)
  | inr other ↦ rw other (ground (arith, find-upsert r.time_bucket r rs))
]

-- The stores in memory are within their limits.
pub record IsKept {S : Type 0} (d : AnalyticsDb S) : Type 0 where
  pub logs : length d.memory_logs ≤ 1000
  pub aggregates : length d.memory_aggregates ≤ 60
  pub unique : IsUnique d.memory_aggregates

-- A record is inserted, or a rollup run, at a time.
pub data Step : Type 0 where
  inserts : LogRecord → Step
  rolls : Bool → ℕ → Step

module _ {S : Type 0} (mongo : Mongo S) where
  -- The latest step comes first.
  unfoldable pub run : List Step → AnalyticsDb S → AnalyticsDb S
  unfolding insert_log run_rollup
  run [] d = d
  run (inserts l ∷ es) d = insert_log mongo l (run es d)
  run (rolls running now ∷ es) d = run_rollup mongo running now (run es d)

  if-IsKept :
      (b : Bool) (d d' : AnalyticsDb S) → IsKept d → IsKept d' → IsKept (if b then d else d')
  if-IsKept true d d' k k' = k
  if-IsKept false d d' k k' = k'

  kept-IsKept : (reply : Reply S) (d : AnalyticsDb S) → IsKept d → IsKept (kept mongo reply d)
  unfolding kept
  kept-IsKept failed d k = k
  kept-IsKept (replied s) d k = record {
    logs = k.logs;
    aggregates = k.aggregates;
    unique = k.unique;
  }

  insert_log-IsKept : (l : LogRecord) (d : AnalyticsDb S) → IsKept d → IsKept (insert_log mongo l d)
  unfolding insert_log
  insert_log-IsKept l d k = if-IsKept (not (is_active d)) _ _ k (
      if-IsKept d.use_memory_fallback _ _
        (record {
          logs = length-push-le l d.memory_logs k.logs;
          aggregates = k.aggregates;
          unique = k.unique;
        })
        (kept-IsKept _ d k))

  insert_aggregate-IsKept :
      (r : Rollup) (d : AnalyticsDb S) → IsKept d → IsKept (insert_aggregate mongo r d)
  unfolding insert_aggregate
  insert_aggregate-IsKept r d k = if-IsKept (not (is_active d)) _ _ k (
      if-IsKept d.use_memory_fallback _ _
        (record {
          logs = k.logs;
          aggregates =
              length-cap-le (upsert r d.memory_aggregates)
                (omega (arith, length-upsert-le r d.memory_aggregates, k.aggregates));
          unique = cap-IsUnique _ (upsert-IsUnique r d.memory_aggregates k.unique);
        })
        (kept-IsKept _ d k))

  saved-IsKept :
      (bucket now : ℕ) (t : Option Totals) (d : AnalyticsDb S)
      → IsKept d
      → IsKept (saved mongo bucket now t d)
  unfolding saved
  saved-IsKept bucket now none d k = k
  saved-IsKept bucket now (some t) d k =
      if-IsKept d.use_memory_fallback _ _ (insert_aggregate-IsKept (rollup bucket now t) d k)
        (kept-IsKept _ d k)

  queried-IsKept :
      (bucket now : ℕ) (reply : Reply (Option Totals)) (d : AnalyticsDb S)
      → IsKept d
      → IsKept (queried mongo bucket now reply d)
  unfolding queried
  queried-IsKept bucket now failed d k = k
  queried-IsKept bucket now (replied t) d k = saved-IsKept bucket now t d k

  run_rollup-IsKept :
      (running : Bool) (now : ℕ) (d : AnalyticsDb S)
      → IsKept d
      → IsKept (run_rollup mongo running now d)
  unfolding run_rollup
  run_rollup-IsKept running now d k =
      if-IsKept (not (is_active d) || running) _ _ k (
        if-IsKept d.use_memory_fallback _ _ (saved-IsKept _ now _ d k) (queried-IsKept _ now _ d k))

  -- Whatever is inserted and rolled up, with or without a server, the stores in memory keep within a
  -- thousand records and sixty documents, and no minute has two documents.
  pub run-IsKept : (es : List Step) (d : AnalyticsDb S) → IsKept d → IsKept (run es d)
  unfolding run
  run-IsKept [] d k = k
  run-IsKept (inserts l ∷ es) d k = insert_log-IsKept l (run es d) (run-IsKept es d k)
  run-IsKept (rolls running now ∷ es) d k =
      run_rollup-IsKept running now (run es d) (run-IsKept es d k)

  find-saved :
      (bucket now : ℕ) (d : AnalyticsDb S) (t : Totals)
      → IsKept d
      → d.enabled ≡ true
      → d.use_memory_fallback ≡ true
      → find bucket (saved mongo bucket now (some t) d).memory_aggregates
        ≡ some (rollup bucket now t)
  unfolding saved insert_aggregate
  find-saved bucket now d t k on memory =
      simp (on, memory) (find-cap-upsert (rollup bucket now t) d.memory_aggregates k.aggregates)

  -- In memory, a rollup of a minute that has records leaves the document of exactly these records for
  -- that minute, in place of an older one.
  pub run_rollup-find :
      (now : ℕ) (d : AnalyticsDb S) (t : Totals)
      → IsKept d
      → d.enabled ≡ true
      → d.use_memory_fallback ≡ true
      → aggregate_logs (bucket_of now) (bucket_of now + 60000) d.memory_logs ≡ some t
      → find (bucket_of now) (run_rollup mongo false now d).memory_aggregates
        ≡ some (rollup (bucket_of now) now t)
  unfolding run_rollup
  run_rollup-find now d t k on memory found =
      simp (on, memory) (rw found (find-saved (bucket_of now) now d t k on memory))
