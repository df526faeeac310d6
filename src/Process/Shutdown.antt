-- ===== src/Process/Shutdown.antt =====
-- What has happened when the process exits with 0 (src/index.js).
use sentinel_adc.Base.{
  ℕ, ◌≡◌, refl, Bool, true, false, Option, none, some, arith, get_elem?, All, All-map, All-push,
  All-set, All-get_elem?, In-set, In-All, In,
}
use sentinel_adc.Http.{Tls}
use sentinel_adc.Cache.{CacheService}
use sentinel_adc.Cache
use sentinel_adc.Analytics.{AnalyticsDb}
use sentinel_adc.Analytics
use sentinel_adc.Process.{
  Phase, waiting, quitting, closing, finished, Process, launch, Event, ticks, listens, connects,
  ends, https_connects, https_ends, signals, closes, cache_closes, db_closes, times_out, crashes,
  may, handle, happens, Reach, now, later, is_running, is_waiting, is_quitting, is_closing, quit_of,
}

abbrev is_drained : Phase → Bool
is_drained waiting = false
is_drained _ = true

abbrev has_quit : Phase → Bool
has_quit (closing quits) = quits
has_quit (finished quits done) = quits
has_quit _ = false

abbrev has_closed : Phase → Bool
has_closed (finished quits done) = done
has_closed _ = false

module _ {S D : Type 0} where
  -- The background work is stopped and the server takes no connections.
  abbrev pub Stopped : Process S D → Type 0
  Stopped p = (p.accepting ≡ false) × (p.monitor ≡ none) × (p.worker ≡ none)

  -- What a callback of `server.close` may rely on where it stands.
  abbrev PhaseHolds : Process S D → Phase → Type 0
  PhaseHolds p ph =
      Stopped p
      × (is_drained ph ≡ true → p.requests ≡ 0)
      × (has_quit ph ≡ true → p.cache.client_ready ≡ false)
      × (has_closed ph ≡ true → p.analytics.connected ≡ false)

  -- A process that exits with 0 has run a callback to its end.
  abbrev HasFinished : Process S D → Type 0
  HasFinished p =
      p.exit ≡ some 0 → (quits : Bool) × (done : Bool) × In (finished quits done) p.callbacks

  record IsOrderly (p : Process S D) : Type 0 where
    phases : All (PhaseHolds p) p.callbacks
    orderly : HasFinished p

not_ready-close :
    {S : Type 0} (quits : Bool) (s : CacheService S)
    → s.client_ready ≡ false
    → (Cache.close quits s).client_ready ≡ false
unfolding Cache.close
not_ready-close true s h = refl
not_ready-close false s h = h

not_connected-close :
    {D : Type 0} (closes : Bool) (d : AnalyticsDb D)
    → d.connected ≡ false
    → (Analytics.close closes d).connected ≡ false
unfolding Analytics.close
not_connected-close true d h = refl
not_connected-close false d h = h

quit-close :
    {S : Type 0} (quits : Bool) (s : CacheService S)
    → quits ≡ true
    → (Cache.close quits s).client_ready ≡ false
unfolding Cache.close
quit-close true s h = refl
quit-close false s h = cc

closed-close :
    {D : Type 0} (closes : Bool) (d : AnalyticsDb D)
    → closes ≡ true
    → (Analytics.close closes d).connected ≡ false
unfolding Analytics.close
closed-close true d h = refl
closed-close false d h = cc

waiting-is_waiting : (o : Option Phase) → is_waiting o ≡ true → o ≡ some waiting
waiting-is_waiting none h = cc
waiting-is_waiting (some waiting) h = refl
waiting-is_waiting (some quitting) h = cc
waiting-is_waiting (some (closing q)) h = cc
waiting-is_waiting (some (finished q c)) h = cc

quitting-is_quitting : (o : Option Phase) → is_quitting o ≡ true → o ≡ some quitting
quitting-is_quitting none h = cc
quitting-is_quitting (some waiting) h = cc
quitting-is_quitting (some quitting) h = refl
quitting-is_quitting (some (closing q)) h = cc
quitting-is_quitting (some (finished q c)) h = cc

closing-is_closing : (o : Option Phase) → is_closing o ≡ true → o ≡ some (closing (quit_of o))
closing-is_closing none h = cc
closing-is_closing (some waiting) h = cc
closing-is_closing (some quitting) h = cc
closing-is_closing (some (closing q)) h = refl
closing-is_closing (some (finished q c)) h = cc

some_eq : {a b : ℕ} → some a ≡ some b → a ≡ b
some_eq h = cc

module _ {S D : Type 0} (tls : Tls) (readable : Bool) where
  -- No event takes from a callback what it relies on.
  PhaseHolds-handle :
      (e : Event) (p : Process S D) (ph : Phase)
      → may tls readable e p ≡ true
      → PhaseHolds p ph
      → PhaseHolds (handle tls readable e p) ph
  unfolding may handle
  PhaseHolds-handle (ticks t) p ph m h = h
  PhaseHolds-handle (listens monitor worker) p ph m (stopped, _, _, _) =
      absurd (ground (arith, stopped.0))
  PhaseHolds-handle connects p ph m (stopped, _, _, _) = absurd (ground (arith, stopped.0))
  PhaseHolds-handle ends p ph m (stopped, drained, quit, closed) =
      (stopped, λ d. omega (arith, drained d), quit, closed)
  PhaseHolds-handle https_connects p ph m h = h
  PhaseHolds-handle https_ends p ph m h = h
  PhaseHolds-handle signals p ph m (stopped, drained, quit, closed) =
      ((refl, refl, refl), drained, quit, closed)
  PhaseHolds-handle (closes i) p ph m h = h
  PhaseHolds-handle (cache_closes i quits) p ph m (stopped, drained, quit, closed) =
      (stopped, drained, λ q. not_ready-close quits p.cache (quit q), closed)
  PhaseHolds-handle (db_closes i done) p ph m (stopped, drained, quit, closed) =
      (stopped, drained, quit, λ c. not_connected-close done p.analytics (closed c))
  PhaseHolds-handle times_out p ph m h = h
  PhaseHolds-handle crashes p ph m h = h

  -- What holds of the callbacks as they are holds of them after the event.
  kept :
      (e : Event) (p : Process S D)
      → may tls readable e p ≡ true
      → All (PhaseHolds p) p.callbacks
      → All (PhaseHolds (handle tls readable e p)) p.callbacks
  kept e p m h =
      All-map (PhaseHolds p) (PhaseHolds (handle tls readable e p)) p.callbacks
        (λ ph. PhaseHolds-handle e p ph m) h

  phases-handle :
      (e : Event) (p : Process S D)
      → may tls readable e p ≡ true
      → All (PhaseHolds p) p.callbacks
      → All (PhaseHolds (handle tls readable e p)) (handle tls readable e p).callbacks
  unfolding may handle
  phases-handle (ticks t) p m h = kept (ticks t) p m h
  phases-handle (listens monitor worker) p m h = kept (listens monitor worker) p m h
  phases-handle connects p m h = kept connects p m h
  phases-handle ends p m h = kept ends p m h
  phases-handle https_connects p m h = kept https_connects p m h
  phases-handle https_ends p m h = kept https_ends p m h
  phases-handle signals p m h =
      All-push (PhaseHolds (handle tls readable signals p)) p.callbacks waiting (kept signals p m h)
        ((refl, refl, refl), λ d. cc, λ q. cc, λ c. cc)
  phases-handle (closes i) p m h =
      let at = waiting-is_waiting (get_elem? p.callbacks i) (ground arith) in
      let (stopped, _, _, _) = All-get_elem? (PhaseHolds p) p.callbacks i waiting h at in
      All-set (PhaseHolds (handle tls readable (closes i) p)) p.callbacks i quitting
        (kept (closes i) p m h) (stopped, λ d. ground arith, λ q. cc, λ c. cc)
  phases-handle (cache_closes i quits) p m h =
      let at = quitting-is_quitting (get_elem? p.callbacks i) m in
      let (stopped, drained, _, _) = All-get_elem? (PhaseHolds p) p.callbacks i quitting h at in
      All-set (PhaseHolds (handle tls readable (cache_closes i quits) p)) p.callbacks i
        (closing quits) (kept (cache_closes i quits) p m h)
        (stopped, λ d. drained refl, quit-close quits p.cache, λ c. cc)
  phases-handle (db_closes i done) p m h =
      let quits = quit_of (get_elem? p.callbacks i) in
      let at = closing-is_closing (get_elem? p.callbacks i) m in
      let (stopped, drained, quit, _) =
        All-get_elem? (PhaseHolds p) p.callbacks i (closing quits) h at in
      All-set (PhaseHolds (handle tls readable (db_closes i done) p)) p.callbacks i
        (finished quits done) (kept (db_closes i done) p m h)
        (stopped, λ d. drained refl, quit, closed-close done p.analytics)
  phases-handle times_out p m h = kept times_out p m h
  phases-handle crashes p m h = kept crashes p m h

  -- Only the end of a callback exits with 0, and a running process has not exited.
  HasFinished-handle :
      (e : Event) (p : Process S D)
      → is_running p.exit ≡ true
      → may tls readable e p ≡ true
      → HasFinished (handle tls readable e p)
  unfolding may handle
  HasFinished-handle (ticks t) p r m = λ x. cc
  HasFinished-handle (listens monitor worker) p r m = λ x. cc
  HasFinished-handle connects p r m = λ x. cc
  HasFinished-handle ends p r m = λ x. cc
  HasFinished-handle https_connects p r m = λ x. cc
  HasFinished-handle https_ends p r m = λ x. cc
  HasFinished-handle signals p r m = λ x. cc
  HasFinished-handle (closes i) p r m = λ x. cc
  HasFinished-handle (cache_closes i quits) p r m = λ x. cc
  HasFinished-handle (db_closes i done) p r m = λ x.
      let quits = quit_of (get_elem? p.callbacks i) in
      let at = closing-is_closing (get_elem? p.callbacks i) m in
      (quits, done, In-set p.callbacks i (finished quits done) at)
  HasFinished-handle times_out p r m = λ x. absurd (omega (arith, some_eq x))
  HasFinished-handle crashes p r m = λ x. absurd (omega (arith, some_eq x))

  Reach-IsOrderly :
      {cache : CacheService S} {analytics : AnalyticsDb D} {p : Process S D}
      → Reach tls readable (launch cache analytics) p
      → IsOrderly p
  Reach-IsOrderly now = record { phases = tt; orderly = λ x. cc }
  Reach-IsOrderly (later r (happens e run m)) =
      let h = Reach-IsOrderly r in
      record { phases = phases-handle e _ m h.phases; orderly = HasFinished-handle e _ run m }

  -- When the process exits with 0, the health monitor and the aggregation worker are stopped, the HTTP
  -- server takes no connections and has no request left, and the clients of Redis and MongoDB have been
  -- asked to close: if the first has quit then the cache is not ready any more, and if the second has
  -- closed then the analytics is not connected any more.
  pub graceful_exit :
      (cache : CacheService S) (analytics : AnalyticsDb D) (p : Process S D)
      → Reach tls readable (launch cache analytics) p
      → p.exit ≡ some 0
      → Stopped p
        × (p.requests ≡ 0)
        × ((quits : Bool) × (done : Bool) × In (finished quits done) p.callbacks
            × (quits ≡ true → p.cache.client_ready ≡ false)
            × (done ≡ true → p.analytics.connected ≡ false))
  graceful_exit cache analytics p r h =
      let inv = Reach-IsOrderly r in
      let (quits, done, i) = inv.orderly h in
      let (stopped, drained, quit, closed) = In-All (PhaseHolds p) i inv.phases in
      (stopped, drained refl, (quits, done, i, quit, closed))
