-- ===== src/Analytics/Worker/Exclusion.antt =====
-- That no two rollups are under way at once, whatever runs between their parts.
use sentinel_adc.Base.{
  ℕ, zero, suc, ◌+◌, ◌-◌, ◌≤◌, ap, ◌∙◌, ◌≡◌, refl, Bool, true, false, not, ◌||◌, Option, none, some,
  List, [], ◌∷◌, length, if◌then◌else◌, arith,
}
use sentinel_adc.Cache.{Reply, failed, replied}
use sentinel_adc.Analytics.{Mongo, Totals, is_active, bucket_of, aggregate_logs}
use sentinel_adc.Analytics.Worker.{
  Wait, query, replacement, insertion, Rollups, Event, starts, stops, ticks, inserts, resumes, pick,
  waits, save, begin, resume, picked, ticked, step, run, finish,
}

-- The flag is set exactly while a rollup waits, and no two wait at once.
pub record IsExclusive {S : Type 0} (s : Rollups S) : Type 0 where
  pub agree : length s.waiting ≡ (if s.worker.running then 1 else 0)

-- The waits that a rollup has before it.
abbrev weight : Wait → ℕ
weight (query now) = 2
weight (replacement r) = 1
weight insertion = 1

abbrev weigh : List Wait → ℕ
weigh [] = 0
weigh (x ∷ xs) = weight x + weigh xs

module _ {S : Type 0} (mongo : Mongo S) where
  if-IsExclusive :
      (b : Bool) (s t : Rollups S)
      → IsExclusive s
      → (b ≡ false → IsExclusive t)
      → IsExclusive (if b then s else t)
  if-IsExclusive true s t h k = h
  if-IsExclusive false s t h k = k refl

  waits-IsExclusive :
      (wait : Wait) (s : Rollups S)
      → s.worker.running ≡ true
      → s.waiting ≡ []
      → IsExclusive (waits mongo wait s)
  unfolding waits
  waits-IsExclusive wait s on free = record { agree = rw (on, free) (ground arith) }

  finish-IsExclusive : (s : Rollups S) → s.waiting ≡ [] → IsExclusive (finish mongo s)
  finish-IsExclusive s free = record { agree = rw free refl }

  save-IsExclusive :
      (now : ℕ) (t : Option Totals) (s : Rollups S)
      → s.worker.running ≡ true
      → s.waiting ≡ []
      → IsExclusive (save mongo now t s)
  unfolding save
  save-IsExclusive now none s on free = finish-IsExclusive s free
  save-IsExclusive now (some t) s on free =
      if-IsExclusive s.db.use_memory_fallback _ _ (waits-IsExclusive insertion _ on free)
        (λ e. waits-IsExclusive _ s on free)

  length_zero : (xs : List Wait) → length xs ≡ 0 → xs ≡ []
  length_zero [] h = refl
  length_zero (x ∷ xs) h = ground arith

  idle : (s : Rollups S) → IsExclusive s → s.worker.running ≡ false → s.waiting ≡ []
  idle s h off = length_zero s.waiting (h.agree ∙ rw off refl)

  begin-IsExclusive : (now : ℕ) (s : Rollups S) → IsExclusive s → IsExclusive (begin mongo now s)
  unfolding begin
  begin-IsExclusive now s h = if-IsExclusive (not (is_active s.db) || s.worker.running) s _ h (λ e.
      let free = idle s h (ground (arith, e)) in
      let s' : Rollups S = record s { worker = record s.worker { running = true } } in
      let found = aggregate_logs (bucket_of now) (bucket_of now + 60000) s.db.memory_logs in
      if-IsExclusive s.db.use_memory_fallback (save mongo now found s') (waits mongo (query now) s')
        (save-IsExclusive now found s' refl free)
        (λ e'. waits-IsExclusive (query now) s' refl free))

  resume-IsExclusive :
      (wait : Wait) (reply : Reply (Option Totals)) (s : Rollups S)
      → s.worker.running ≡ true
      → s.waiting ≡ []
      → IsExclusive (resume mongo wait reply s)
  unfolding resume
  resume-IsExclusive (query now) failed s on free = finish-IsExclusive s free
  resume-IsExclusive (query now) (replied t) s on free = save-IsExclusive now t s on free
  resume-IsExclusive (replacement r) reply s on free = record { agree = rw free refl }
  resume-IsExclusive insertion reply s on free = finish-IsExclusive s free

  running_one :
      (s : Rollups S) (x : Wait) → s.waiting ≡ x ∷ [] → IsExclusive s → s.worker.running ≡ true
  running_one s x e h =
      let n : length s.waiting ≡ 1 = ap length e in let agree = h.agree in ground (arith, n, agree)

  not_two :
      (s : Rollups S) (x y : Wait) (xs : List Wait) → s.waiting ≡ x ∷ y ∷ xs → IsExclusive s → ⊥
  not_two s x y xs e h =
      let n : length s.waiting ≡ suc (suc (length xs)) = ap length e in
      let agree = h.agree in ground (arith, n, agree)

  picked-IsExclusive :
      (i : ℕ) (xs : List Wait) (reply : Reply (Option Totals)) (s : Rollups S)
      → s.waiting ≡ xs
      → IsExclusive s
      → IsExclusive (picked mongo (pick i xs) reply s)
  unfolding picked
  picked-IsExclusive i [] reply s e h = h
  picked-IsExclusive zero (x ∷ []) reply s e h =
      resume-IsExclusive x reply (record s { waiting = [] }) (running_one s x e h) refl
  picked-IsExclusive (suc i) (x ∷ []) reply s e h = h
  picked-IsExclusive i (x ∷ y ∷ xs) reply s e h = elim (not_two s x y xs e h) [ ]

  ticked-IsExclusive :
      (timer : Option ℕ) (now : ℕ) (s : Rollups S)
      → IsExclusive s
      → IsExclusive (ticked mongo timer now s)
  unfolding ticked
  ticked-IsExclusive none now s h = h
  ticked-IsExclusive (some timer) now s h = begin-IsExclusive now s h

  step-IsExclusive : (e : Event) (s : Rollups S) → IsExclusive s → IsExclusive (step mongo e s)
  unfolding step
  step-IsExclusive (starts id) s h = record { agree = h.agree }
  step-IsExclusive stops s h = record { agree = h.agree }
  step-IsExclusive (ticks now) s h = ticked-IsExclusive s.worker.interval_id now s h
  step-IsExclusive (inserts l) s h = record { agree = h.agree }
  step-IsExclusive (resumes i reply) s h = picked-IsExclusive i s.waiting reply s refl h

  pub run-IsExclusive :
      (es : List Event) (s : Rollups S) → IsExclusive s → IsExclusive (run mongo es s)
  unfolding run
  run-IsExclusive [] s h = h
  run-IsExclusive (e ∷ es) s h = step-IsExclusive e _ (run-IsExclusive es s h)

  weigh-save :
      (now : ℕ) (t : Option Totals) (s : Rollups S)
      → weigh (save mongo now t s).waiting ≤ suc (weigh s.waiting)
  unfolding save waits
  weigh-save now none s = omega arith
  weigh-save now (some t) s = ground arith

  weigh-resume :
      (wait : Wait) (reply : Reply (Option Totals)) (s : Rollups S)
      → suc (weigh (resume mongo wait reply s).waiting) ≤ weight wait + weigh s.waiting
  unfolding resume
  weigh-resume (query now) failed s = omega arith
  weigh-resume (query now) (replied t) s = ground (arith, weigh-save now t s)
  weigh-resume (replacement r) reply s = omega arith
  weigh-resume insertion reply s = omega arith

  weigh-picked :
      (xs : List Wait) (reply : Reply (Option Totals)) (s : Rollups S)
      → s.waiting ≡ xs
      → weigh (picked mongo (pick zero xs) reply s).waiting ≤ weigh s.waiting - 1
  unfolding picked
  weigh-picked [] reply s e = rw e (omega arith)
  weigh-picked (x ∷ xs) reply s e =
      rw e (ground (arith, weigh-resume x reply (record s { waiting = xs })))

  weigh_le : (s : Rollups S) (xs : List Wait) → s.waiting ≡ xs → IsExclusive s → weigh s.waiting ≤ 2
  weigh_le s [] e h = rw e (omega arith)
  weigh_le s (query now ∷ []) e h = rw e (omega arith)
  weigh_le s (replacement r ∷ []) e h = rw e (omega arith)
  weigh_le s (insertion ∷ []) e h = rw e (omega arith)
  weigh_le s (x ∷ y ∷ xs) e h = elim (not_two s x y xs e h) [ ]

  weigh_none : (xs : List Wait) → weigh xs ≤ 0 → length xs ≡ 0
  weigh_none [] h = refl
  weigh_none (query now ∷ xs) h = ground arith
  weigh_none (replacement r ∷ xs) h = ground arith
  weigh_none (insertion ∷ xs) h = ground arith

  answered_twice :
      (r r' : Reply (Option Totals)) (s : Rollups S)
      → IsExclusive s
      → (step mongo (resumes 0 r') (step mongo (resumes 0 r) s)).worker.running ≡ false
  unfolding step
  answered_twice r r' s h =
      let s' = picked mongo (pick zero s.waiting) r s in
      let s'' = picked mongo (pick zero s'.waiting) r' s' in
      let start = weigh_le s s.waiting refl h in
      let once = weigh-picked s.waiting r s refl in
      let twice = weigh-picked s'.waiting r' s' refl in
      let none_left = weigh_none s''.waiting (omega (arith, start, once, twice)) in
      let h'' = step-IsExclusive (resumes 0 r') s' (step-IsExclusive (resumes 0 r) s h) in
      let agree = h''.agree in ground (arith, none_left, agree)

  -- From a worker with no rollup under way, whatever the timer, the requests and the answers of the
  -- database do in between: at most one rollup waits, the flag `running` is set exactly while one does,
  -- and two answers at most end it, failures included.
  pub rollups_exclusive :
      (es : List Event) (s : Rollups S) (r r' : Reply (Option Totals))
      → s.worker.running ≡ false
      → s.waiting ≡ []
      → (length (run mongo es s).waiting ≡ (if (run mongo es s).worker.running then 1 else 0))
        × ((run mongo (resumes 0 r' ∷ resumes 0 r ∷ es) s).worker.running ≡ false)
  unfolding run
  rollups_exclusive es s r r' off free =
      let h = run-IsExclusive es s (record { agree = rw (off, free) refl }) in
      (h.agree, answered_twice r r' _ h)
