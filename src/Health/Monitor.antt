-- ===== src/Health/Monitor.antt =====
-- The health monitor (src/health/healthMonitor.js): what one check of a backend does to the health
-- store and to the circuit breaker, which share the pool. The outcome of the request that `fetch`
-- made is an argument, with the latency in nanoseconds.
use sentinel_adc.Base.{
  ℕ, ◌≡◌, ◌≢◌, Bool, true, false, String, Option, none, some, List, [], ◌∷◌, arith, Dict, lookup,
}
use sentinel_adc.Pool.{Backend, find}
use sentinel_adc.Pool.Laws.{find-modify_self}
use sentinel_adc.Circuit.{closed, Breaker, Manager, record_success, record_failure}
use sentinel_adc.Health.{Stats, record_result}
use sentinel_adc.Health.Rotation.{healthy_in, id-update}

-- `response.ok`; another status, with the text of the failure; an exception, with its message.
pub data Probe : Type 0 where
  passed : ℕ → Probe
  refused failed : String → ℕ → Probe

-- The statistics of the health store, and the circuit breaker with the pool.
pub record World : Type 0 where
  pub stats : Dict Stats
  pub circuit : Manager

-- `healthStore.recordResult`, on the shared pool.
abbrev store_result : String → Bool → ℕ → ℕ → World → World
store_result id success latency now w =
    let st =
      record_result id success latency now (record { stats = w.stats; pool = w.circuit.pool }) in
    record { stats = st.stats; circuit = record (w.circuit) { pool = st.pool } }

-- `checkBackend` from the arrival of the outcome on; `now` and `at` are the readings of the clock.
unfoldable pub check_backend : String → Probe → ℕ → ℕ → World → World
check_backend id (passed latency) now at w =
    let w' = store_result id true latency now w in
    record w' { circuit = record_success id now at w'.circuit }
check_backend id (refused error latency) now at w =
    let w' = store_result id false latency now w in
    record w' { circuit = record_failure id error now at w'.circuit }
check_backend id (failed error latency) now at w =
    let w' = store_result id false latency now w in
    record w' { circuit = record_failure id error now at w'.circuit }

-- `checkAll`: the checks in the order in which their requests end.
unfoldable pub check_all : List (String × Probe × ℕ × ℕ) → World → World
check_all [] w = w
check_all ((id, p, now, at) ∷ ps) w = check_all ps (check_backend id p now at w)

-- While the circuit breaker is enabled, a check that passes while the backend's breaker is not closed
-- puts the backend into rotation, whatever its other fields are: also one that an administrator has
-- disabled or that is being drained.
pub passed_closes_breaker :
    (id : String) (latency now at : ℕ) (w : World) (b : Backend) (r : Breaker)
    → w.circuit.config.enabled ≡ true
    → find id w.circuit.pool ≡ some b
    → lookup id w.circuit.breakers ≡ some r
    → r.state ≢ closed
    → healthy_in (find id (check_backend id (passed latency) now at w).circuit.pool) ≡ some true
unfolding check_backend record_success record_result
passed_closes_breaker id latency now at w b r on e f h = grind (arith, find-modify_self, id-update)

-- The timer of the monitor: `start` runs a first check and makes a timer with this identifier, unless
-- there is one.
unfoldable pub start : ℕ → Option ℕ → Bool × Option ℕ
start id none = (true, some id)
start id (some timer) = (false, some timer)

abbrev pub stop : Option ℕ → Option ℕ
stop timer = none
