-- ===== src/Process.antt =====
-- The life of the process (src/index.js): the start of the servers and of the background work, the signals,
-- and what waits for what at the end. The two servers, the event loop and its timers are those of the
-- runtime: a callback of `server.close` runs once nobody can connect and all requests have ended, and the
-- clock does not pass a timer that is due.
pub mod Shutdown
pub mod Deadline
pub mod Https
use sentinel_adc.Base.{
  ℕ, zero, suc, ◌+◌, ◌-◌, Bool, true, false, not, ◌&&◌, ◌||◌, Option, none, some, List, [], ◌∷◌,
  ◌++◌, ◌≡◌, get_elem?, set, leb, ltb, ◌==◌, if◌then◌else◌,
}
use sentinel_adc.Http.{Tls}
use sentinel_adc.Cache.{CacheService}
use sentinel_adc.Cache
use sentinel_adc.Analytics.{AnalyticsDb}
use sentinel_adc.Analytics
use sentinel_adc.Health.Monitor

-- Where a callback of `server.close` stands: not called yet, in `cacheService.close`, in
-- `analyticsDb.close`, at `process.exit(0)`. It keeps whether the clients have closed.
pub data Phase : Type 0 where
  waiting quitting : Phase
  closing : Bool → Phase
  finished : Bool → Bool → Phase

-- `accepting` says that `server` has not been closed, `bound` that its callback of `listen` has run;
-- `https_accepting` that `httpsServer` listens. `monitor` and `worker` are the `intervalId` of the health
-- monitor and the aggregation worker. `deadlines` are the timers of `gracefulShutdown`.
pub record Process (S D : Type 0) : Type 0 where
  pub clock : ℕ
  pub bound : Bool
  pub accepting : Bool
  pub requests : ℕ
  pub https_accepting : Bool
  pub https_requests : ℕ
  pub monitor : Option ℕ
  pub worker : Option ℕ
  pub callbacks : List Phase
  pub deadlines : List ℕ
  pub cache : CacheService S
  pub analytics : AnalyticsDb D
  pub exit : Option ℕ

-- The start: `server.listen` has been called.
abbrev pub launch : {S D : Type 0} → CacheService S → AnalyticsDb D → Process S D
launch cache analytics = record {
  clock = 0;
  bound = false;
  accepting = true;
  requests = 0;
  https_accepting = false;
  https_requests = 0;
  monitor = none;
  worker = none;
  callbacks = [];
  deadlines = [];
  cache = cache;
  analytics = analytics;
  exit = none;
}

-- What the runtime reports. The identifiers of new timers, the outcome of the clients and the new time come
-- with it.
pub data Event : Type 0 where
  ticks : ℕ → Event
  listens : ℕ → ℕ → Event
  connects ends https_connects https_ends : Event
  signals : Event
  closes : ℕ → Event
  cache_closes db_closes : ℕ → Bool → Event
  times_out crashes : Event

module _ {S D : Type 0} where
  -- `gracefulShutdown`, for SIGTERM and SIGINT.
  unfoldable pub graceful_shutdown : Process S D → Process S D
  graceful_shutdown p = record p {
    monitor = Monitor.stop p.monitor;
    worker = Analytics.stop p.worker;
    accepting = false;
    callbacks = p.callbacks ++ waiting ∷ [];
    deadlines = p.deadlines ++ (p.clock + 10000) ∷ [];
  }

  -- `process.exit`.
  abbrev pub exit_with : ℕ → Process S D → Process S D
  exit_with code p = record p { exit = some code }

abbrev pub is_running : Option ℕ → Bool
is_running none = true
is_running (some code) = false

abbrev pub is_waiting : Option Phase → Bool
is_waiting (some waiting) = true
is_waiting _ = false

abbrev pub is_quitting : Option Phase → Bool
is_quitting (some quitting) = true
is_quitting _ = false

abbrev pub is_closing : Option Phase → Bool
is_closing (some (closing quits)) = true
is_closing _ = false

abbrev pub quit_of : Option Phase → Bool
quit_of (some (closing quits)) = quits
quit_of _ = false

-- No timer is due before this time, and some timer is due.
unfoldable pub none_before : ℕ → List ℕ → Bool
none_before t [] = true
none_before t (d ∷ ds) = leb t d && none_before t ds

unfoldable pub some_due : ℕ → List ℕ → Bool
some_due t [] = false
some_due t (d ∷ ds) = leb d t || some_due t ds

-- `readable`: the key and the certificate can be read and make a server.
module _ {S D : Type 0} (tls : Tls) (readable : Bool) where
  -- The callback of `server.listen`.
  unfoldable pub boot : ℕ → ℕ → Process S D → Process S D
  unfolding Monitor.start Analytics.start
  boot monitor worker p = record p {
    bound = true;
    https_accepting = tls.enabled && readable;
    monitor = (Monitor.start monitor p.monitor).1;
    worker = Analytics.start worker p.worker;
  }

  -- Which events the runtime may report next.
  unfoldable pub may : Event → Process S D → Bool
  unfolding none_before some_due
  may (ticks t) p = leb p.clock t && none_before t p.deadlines
  may (listens monitor worker) p = p.accepting && not p.bound
  may connects p = p.accepting && p.bound
  may ends p = ltb 0 p.requests
  may https_connects p = p.https_accepting
  may https_ends p = ltb 0 p.https_requests
  may signals p = true
  may (closes i) p = not p.accepting && p.requests == 0 && is_waiting (get_elem? p.callbacks i)
  may (cache_closes i quits) p = is_quitting (get_elem? p.callbacks i)
  may (db_closes i done) p = is_closing (get_elem? p.callbacks i)
  may times_out p = some_due p.clock p.deadlines
  may crashes p = true

  unfoldable pub handle : Event → Process S D → Process S D
  unfolding boot graceful_shutdown
  handle (ticks t) p = record p { clock = t }
  handle (listens monitor worker) p = boot monitor worker p
  handle connects p = record p { requests = p.requests + 1 }
  handle ends p = record p { requests = p.requests - 1 }
  handle https_connects p = record p { https_requests = p.https_requests + 1 }
  handle https_ends p = record p { https_requests = p.https_requests - 1 }
  handle signals p = graceful_shutdown p
  handle (closes i) p = record p { callbacks = set p.callbacks i quitting }
  handle (cache_closes i quits) p = record p {
    callbacks = set p.callbacks i (closing quits);
    cache = Cache.close quits p.cache;
  }
  handle (db_closes i done) p = exit_with 0 (record p {
    callbacks = set p.callbacks i (finished (quit_of (get_elem? p.callbacks i)) done);
    analytics = Analytics.close done p.analytics;
  })
  handle times_out p = exit_with 1 p
  handle crashes p = exit_with 1 p

  -- A process that has exited does nothing more.
  pub data Step (p : Process S D) : Process S D → Type 0 where
    happens : (e : Event) → is_running p.exit ≡ true → may e p ≡ true → Step p (handle e p)

  pub data Reach (p : Process S D) : Process S D → Type 0 where
    now : Reach p p
    later : {q r : Process S D} → Reach p q → Step q r → Reach p r
