-- ===== src/Analytics/Worker/Alone.antt =====
-- A rollup whose parts run one after the other is the step `run_rollup`.
use sentinel_adc.Base.{
  ℕ, zero, ◌+◌, ◌≡◌, refl, Bool, true, false, Option, none, some, [], if◌then◌else◌, not, ◌||◌,
  Bool-cases, inl, inr,
}
use sentinel_adc.Cache.{Reply, failed, replied}
use sentinel_adc.Analytics.{
  AnalyticsDb, Mongo, Totals, is_active, bucket_of, aggregate_logs, run_rollup, saved, queried,
}
use sentinel_adc.Analytics.Worker.{Rollups, begin, resume, picked, save, waits, pick, query}

module _ {S : Type 0} (mongo : Mongo S) where
  -- A worker with no rollup under way.
  abbrev pub resting : Option ℕ → AnalyticsDb S → Rollups S
  resting timer d = record {
    worker = record { interval_id = timer; running = false };
    db = d;
    waiting = [];
  }

  abbrev busy : Option ℕ → AnalyticsDb S → Rollups S
  busy timer d = record (resting timer d) {
    worker = record { interval_id = timer; running = true };
  }

  next : Reply (Option Totals) → Rollups S → Rollups S
  unfolding picked
  next reply s = picked mongo (pick zero s.waiting) reply s

  next-save :
      (timer : Option ℕ) (now : ℕ) (t : Option Totals) (d : AnalyticsDb S)
      (reply : Reply (Option Totals))
      → (next reply (save mongo now t (busy timer d))).db ≡ saved mongo (bucket_of now) now t d
  unfolding next save waits resume saved
  next-save timer now none d reply = refl
  next-save timer now (some t) d reply = elim (Bool-cases d.use_memory_fallback) [
    | inl memory ↦ rw memory refl
    | inr server ↦ rw server refl
  ]

  query-run :
      (timer : Option ℕ) (now : ℕ) (answer reply : Reply (Option Totals)) (d : AnalyticsDb S)
      → (next reply (next answer (waits mongo (query now) (busy timer d)))).db
        ≡ queried mongo (bucket_of now) now answer d
  unfolding next waits resume queried
  query-run timer now failed reply d = refl
  query-run timer now (replied t) reply d = next-save timer now t d reply

  next-next-save :
      (timer : Option ℕ) (now : ℕ) (t : Option Totals) (d : AnalyticsDb S)
      (answer reply : Reply (Option Totals))
      → (next reply (next answer (save mongo now t (busy timer d)))).db
        ≡ saved mongo (bucket_of now) now t d
  unfolding next save waits resume saved
  next-next-save timer now none d answer reply = refl
  next-next-save timer now (some t) d answer reply = elim (Bool-cases d.use_memory_fallback) [
    | inl memory ↦ rw memory refl
    | inr server ↦ rw server refl
  ]

  next-next-if :
      (b : Bool) (s t : Rollups S) (x y : AnalyticsDb S) (answer reply : Reply (Option Totals))
      → (next reply (next answer s)).db ≡ x
      → (next reply (next answer t)).db ≡ y
      → (next reply (next answer (if b then s else t))).db ≡ (if b then x else y)
  next-next-if true s t x y answer reply p q = p
  next-next-if false s t x y answer reply p q = q

  -- With nothing in between, and the answer that the database has when the query is made, the parts of a
  -- rollup change the database as the one step does.
  begin-run_rollup :
      (timer : Option ℕ) (now : ℕ) (d : AnalyticsDb S) (reply : Reply (Option Totals))
      → (next reply (
          next
            (mongo.aggregate (bucket_of now) (bucket_of now + 60000) d.db)
            (begin mongo now (resting timer d)))).db
        ≡ run_rollup mongo false now d
  unfolding begin run_rollup
  begin-run_rollup timer now d reply =
      let found = aggregate_logs (bucket_of now) (bucket_of now + 60000) d.memory_logs in
      let answer = mongo.aggregate (bucket_of now) (bucket_of now + 60000) d.db in
      next-next-if (not (is_active d) || false) (resting timer d) _ d _ answer reply
        (unfold next in refl)
        (next-next-if d.use_memory_fallback (save mongo now found (busy timer d))
          (waits mongo (query now) (busy timer d)) _ _ answer reply
          (next-next-save timer now found d answer reply) (query-run timer now answer reply d))
