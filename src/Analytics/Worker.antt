-- ===== src/Analytics/Worker.antt =====
-- The rollups of src/analytics/aggregationWorker.js with their waits: between two parts of `runRollup` other
-- code runs, the next tick of the timer included. An answer of MongoDB comes with the event that brings it.
pub mod Alone
pub mod Exclusion
use sentinel_adc.Base.{
  ℕ, zero, suc, ◌+◌, ◌-◌, ◌≤◌, ap, sym, ◌∙◌, ◌≡◌, refl, Bool, true, false, not, ◌||◌, Option, none,
  some, List, [], ◌∷◌, length, if◌then◌else◌, arith, Bool-cases, inl, inr,
}
use sentinel_adc.Cache.{Reply, failed, replied}
use sentinel_adc.Analytics.{
  AnalyticsDb, LogRecord, Mongo, Rollup, Totals, is_active, rollup, bucket_of, aggregate_logs,
  insert_log, insert_aggregate, kept, start, stop,
}

pub record Worker : Type 0 where
  pub interval_id : Option ℕ
  pub running : Bool

-- What a rollup waits for: the answer to the query of a time, the replacement of a document, or the end of
-- an insertion in memory.
pub data Wait : Type 0 where
  query : ℕ → Wait
  replacement : Rollup → Wait
  insertion : Wait

-- The worker, the database and the rollups that wait, the latest first.
pub record Rollups (S : Type 0) : Type 0 where
  pub worker : Worker
  pub db : AnalyticsDb S
  pub waiting : List Wait

-- What happens: the timer is started or stopped, it ticks, a record is inserted, or the rollup at an index
-- goes on, with the answer if it is its query that it waits for and with the success of its replacement.
pub data Event : Type 0 where
  starts : ℕ → Event
  stops : Event
  ticks : ℕ → Event
  inserts : LogRecord → Event
  resumes : ℕ → Reply (Option Totals) → Event

-- The element at an index, and the others.
abbrev pub pick : ℕ → List Wait → Option (Wait × List Wait)
pick i [] = none
pick zero (x ∷ xs) = some (x, xs)
pick (suc i) (x ∷ xs) = elim (pick i xs) [ none ↦ none | some (y, ys) ↦ some (y, x ∷ ys) ]

module _ {S : Type 0} (mongo : Mongo S) where
  -- The `finally` of `runRollup`.
  abbrev pub finish : Rollups S → Rollups S
  finish s = record s { worker = record s.worker { running = false } }

  waits : Wait → Rollups S → Rollups S
  waits wait s = record s { waiting = wait ∷ s.waiting }

  -- From the totals on.
  unfoldable pub save : ℕ → Option Totals → Rollups S → Rollups S
  unfolding waits
  save now none s = finish s
  save now (some t) s =
      let r = rollup (bucket_of now) now t in
      if s.db.use_memory_fallback
      then waits insertion (record s { db = insert_aggregate mongo r s.db })
      else waits (replacement r) s

  -- `runRollup` up to its first wait.
  unfoldable pub begin : ℕ → Rollups S → Rollups S
  unfolding save
  begin now s =
      let s' : Rollups S = record s { worker = record s.worker { running = true } } in
      if not (is_active s.db) || s.worker.running
      then s
      else if s.db.use_memory_fallback
      then save now (aggregate_logs (bucket_of now) (bucket_of now + 60000) s.db.memory_logs) s'
      else waits (query now) s'

  -- `runRollup` after a wait.
  unfoldable pub resume : Wait → Reply (Option Totals) → Rollups S → Rollups S
  unfolding save kept
  resume (query now) failed s = finish s
  resume (query now) (replied t) s = save now t s
  resume (replacement r) reply s =
      finish (record s { db = kept mongo (mongo.replace_one r s.db.db) s.db })
  resume insertion reply s = finish s

  picked : Option (Wait × List Wait) → Reply (Option Totals) → Rollups S → Rollups S
  unfolding resume
  picked none reply s = s
  picked (some (wait, others)) reply s = resume wait reply (record s { waiting = others })

  ticked : Option ℕ → ℕ → Rollups S → Rollups S
  unfolding begin
  ticked none now s = s
  ticked (some timer) now s = begin now s

  unfoldable pub step : Event → Rollups S → Rollups S
  unfolding picked ticked start
  step (starts id) s = record s {
    worker = record s.worker { interval_id = start id s.worker.interval_id };
  }
  step stops s = record s { worker = record s.worker { interval_id = stop s.worker.interval_id } }
  step (ticks now) s = ticked s.worker.interval_id now s
  step (inserts l) s = record s { db = insert_log mongo l s.db }
  step (resumes i reply) s = picked (pick i s.waiting) reply s

  -- The latest event comes first.
  unfoldable pub run : List Event → Rollups S → Rollups S
  unfolding step
  run [] s = s
  run (e ∷ es) s = step e (run es s)
