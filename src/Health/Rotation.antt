-- ===== src/Health/Rotation.antt =====
-- When a backend is in rotation after a health check.
use mathlib.Core.Option
use sentinel_adc.Base.{
  ℕ, ◌≡◌, refl, Bool, true, not, ◌&&◌, String, Option, some, List, [], ◌∷◌, arith, lookup,
  lookup-insert_self, ltb,
}
use sentinel_adc.Pool.{Backend, find, modify}
use sentinel_adc.Pool.Laws.{find-modify_self}
use sentinel_adc.Health.{
  Check, Stats, Store, initial_stats, count_check, record_result, update_backend_health_state,
}
use sentinel_adc.Health.Window.{count_all, failing_run, count_all-IsTally}

-- Whatever the flags were before, the new `healthy` depends on the administrator and on the failures
-- in a row alone: fewer than three of them put a backend into rotation, so that the test for two
-- successes decides the status only.
pub healthy-update :
    (s : Stats) (b : Backend)
    → (update_backend_health_state s b).healthy
      ≡ not b.admin_disabled && ltb s.consecutive_failures 3
unfolding update_backend_health_state
healthy-update s b = ground arith

-- `recordResult` for each check of a history, the latest first.
unfoldable pub record_all : String → List Check → Store → Store
record_all id [] st = st
record_all id (c ∷ older) st =
    record_result id c.success c.latency c.timestamp (record_all id older st)

stats-record_result :
    (id : String) (b : Bool) (latency now : ℕ) (st : Store) (s : Stats)
    → lookup id st.stats ≡ some s
    → lookup id (record_result id b latency now st).stats ≡ some (count_check b latency now s)
unfolding record_result
stats-record_result id b latency now st s h = rw h (lookup-insert_self id _ _)

pool-record_result :
    (id : String) (b : Bool) (latency now : ℕ) (st : Store) (s : Stats)
    → lookup id st.stats ≡ some s
    → (record_result id b latency now st).pool
      ≡ modify id (update_backend_health_state (count_check b latency now s)) st.pool
unfolding record_result
pool-record_result id b latency now st s h = rw h

stats-record_all :
    (id : String) (h : List Check) (st : Store)
    → lookup id st.stats ≡ some initial_stats
    → lookup id (record_all id h st).stats ≡ some (count_all h)
unfolding record_all count_all
stats-record_all id [] st e = e
stats-record_all id (c ∷ older) st e =
    stats-record_result id c.success c.latency c.timestamp (record_all id older st)
      (count_all older) (stats-record_all id older st e)

admin_disabled-update :
    (s : Stats) (b : Backend) → (update_backend_health_state s b).admin_disabled ≡ b.admin_disabled
unfolding update_backend_health_state
admin_disabled-update s b = ground arith

pub id-update : (s : Stats) (b : Backend) → (update_backend_health_state s b).id ≡ b.id
unfolding update_backend_health_state
id-update s b = ground arith

abbrev pub enabled_in : Option Backend → Option Bool
enabled_in = Option.map λ b. not b.admin_disabled

abbrev pub healthy_in : Option Backend → Option Bool
healthy_in = Option.map λ b. b.healthy

-- The backend of the check, in terms of the pool before it.
pub find-record_result :
    (id : String) (b : Bool) (latency now : ℕ) (st : Store) (s : Stats)
    → lookup id st.stats ≡ some s
    → find id (record_result id b latency now st).pool
      ≡ Option.map (update_backend_health_state (count_check b latency now s)) (find id st.pool)
find-record_result id b latency now st s h =
    rw (pool-record_result id b latency now st s h) (find-modify_self id _ st.pool (id-update _))

enabled-record_all :
    (id : String) (h : List Check) (st : Store)
    → lookup id st.stats ≡ some initial_stats
    → enabled_in (find id (record_all id h st).pool) ≡ enabled_in (find id st.pool)
unfolding record_all
enabled-record_all id [] st e = refl
enabled-record_all id (c ∷ older) st e = grind (
  arith,
  find-record_result id c.success c.latency c.timestamp (record_all id older st) (count_all older)
      (stats-record_all id older st e),
  enabled-record_all id older st e,
  admin_disabled-update,
)

-- After any history of checks, at least one, of a backend that starts with no check recorded and that
-- no administrator has disabled, it is in rotation exactly when fewer than three of its last checks in a row have failed.
pub healthy-record_all :
    (id : String) (c : Check) (older : List Check) (st : Store)
    → lookup id st.stats ≡ some initial_stats
    → enabled_in (find id st.pool) ≡ some true
    → healthy_in (find id (record_all id (c ∷ older) st).pool)
      ≡ some (ltb (failing_run (c ∷ older)) 3)
unfolding record_all count_all
healthy-record_all id c older st e on = grind (
  arith,
  find-record_result id c.success c.latency c.timestamp (record_all id older st) (count_all older)
      (stats-record_all id older st e),
  enabled-record_all id older st e,
  healthy-update,
  (count_all-IsTally (c ∷ older)).failures,
)
