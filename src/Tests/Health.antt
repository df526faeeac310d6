-- ===== src/Tests/Health.antt =====
-- Runs of the health store and the drain manager.
use mathlib.Core.Option
use sentinel_adc.Base.{
  ℕ, ◌≡◌, ◌*◌, refl, arith, Bool, true, false, Option, none, some, List, [], ◌∷◌, lookup, insert,
  ltb,
}
use sentinel_adc.Pool.{Backend, Status, draining, find, modify}
use sentinel_adc.Circuit.{Config, Breaker, opened, new, record_failure}
use sentinel_adc.Health.{Check, Store, initial_stats, init_stats, override, record_result}
use sentinel_adc.Health.Window.{failing_run}
use sentinel_adc.Health.Rotation.{record_all, healthy_in, enabled_in, healthy-record_all}
use sentinel_adc.Health.Override.{Disabled, override_sticky}
use sentinel_adc.Health.Monitor.{World, check_backend, passed, passed_closes_breaker}
use sentinel_adc.Drain.{Drains, drain_backend}
use sentinel_adc.Drain.Lifecycle.{
  drains, disconnects, undrains, step, run, IsTracked, run-IsTracked, disconnect_times, Waits,
  IsOffline, drain_ends, is_out,
}
use sentinel_adc.Drain.Rejoin.{drain_undone}
use sentinel_adc.Tests.{backend, pool}

abbrev check : Bool → ℕ → Check
check success n = record { success = success; latency = 1000000 * n; timestamp = n }

-- Three failures after a success, the latest first.
abbrev history : List Check
history = check false 4 ∷ check false 3 ∷ check false 2 ∷ check true 1 ∷ []

abbrev store : Store
store = record { stats = init_stats pool []; pool = pool }

counted_a : lookup "a" store.stats ≡ some initial_stats
unfolding init_stats lookup insert
counted_a = refl

enabled_a : enabled_in (find "a" store.pool) ≡ some true
unfolding find
enabled_a = refl

healthy-record_all_example :
    healthy_in (find "a" (record_all "a" history store).pool) ≡ some (ltb (failing_run history) 3)
healthy-record_all_example =
    healthy-record_all "a" (check false 4) (check false 3 ∷ check false 2 ∷ check true 1 ∷ []) store
      counted_a enabled_a

abbrev from_option : Option Store → Store
from_option none = store
from_option (some st) = st

override_found_a : override "a" false store ≡ some (from_option (override "a" false store))
unfolding override find
override_found_a = refl

override_sticky_example : Disabled (
    find "a"
      (record_all "a"
        (check true 2 ∷ check true 1 ∷ [])
        (from_option (override "a" false store))).pool)
override_sticky_example =
    override_sticky "a" store (from_option (override "a" false store))
      (check true 2 ∷ check true 1 ∷ []) override_found_a

abbrev strict : Config
strict = record {
  enabled = true;
  failure_threshold = 1;
  cooldown_ms = 30000;
  half_open_max_probes = 2;
}

abbrev world : World
world = record {
  stats = init_stats pool [];
  circuit = record_failure "a" "refused" 5 5 (new strict pool 0);
}

abbrev open_breaker : Breaker
open_breaker = record {
  url = "http://localhost";
  state = opened;
  consecutive_failures = 1;
  last_state_change = 5;
  probe_count = 0;
  last_error = some "refused";
}

passed_closes_breaker_example :
    healthy_in (find "a" (check_backend "a" (passed 1000) 6 6 world).circuit.pool) ≡ some true
unfolding record_failure new lookup insert find modify
passed_closes_breaker_example =
    passed_closes_breaker "a" 1000 6 6 world
      (record (backend "a" 3 2) { healthy = false; status = Status.unhealthy }) open_breaker refl
      refl refl (λ e. cc)

abbrev idle : Drains
idle = record { drain_timers = []; pool = pool; events = [] }

idle-IsTracked : IsTracked idle
unfolding lookup find
idle-IsTracked id = ground arith

run-IsTracked_example : IsTracked (
    run
      (("a", drains 60 0)
        ∷ ("a", disconnects)
        ∷ ("b", drains 60 1)
        ∷ ("a", disconnects)
        ∷ ("b", undrains)
        ∷ [])
      idle)
run-IsTracked_example =
    run-IsTracked
      (("a", drains 60 0)
        ∷ ("a", disconnects)
        ∷ ("b", drains 60 1)
        ∷ ("a", disconnects)
        ∷ ("b", undrains)
        ∷ [])
      idle idle-IsTracked

abbrev draining_a : Drains
draining_a = run (("a", drains 60 0) ∷ []) idle

waits : Waits 2 (find "a" draining_a.pool)
unfolding run step drain_backend find modify
waits = (refl, refl, refl)

drain_ends_example :
    IsOffline (find "a" (disconnect_times 2 "a" draining_a).pool)
    × (lookup "a" (disconnect_times 2 "a" draining_a).drain_timers ≡ none)
drain_ends_example = drain_ends 1 "a" draining_a waits

found_a : find "a" idle.pool ≡ some (backend "a" 3 2)
unfolding find
found_a = refl

abbrev drained_a : Backend
drained_a = record (backend "a" 3 2) {
  healthy = false;
  status = draining;
  drain_start_time = some 0;
  on_drain_complete = true;
}

found_draining : find "a" draining_a.pool ≡ some drained_a
unfolding run step drain_backend find modify
found_draining = refl

drain_undone_example :
    (healthy_in (
        find "a"
          (record_result "a" true 1000 9 (record {
            stats = init_stats pool [];
            pool = (drain_backend "a" 60 0 idle).1.pool;
          })).pool)
      ≡ some true)
    × (Option.map
          (λ k. is_out k.status)
          (find "a"
            (record_result "a" true 1000 9 (record {
              stats = init_stats pool [];
              pool = (drain_backend "a" 60 0 idle).1.pool;
            })).pool)
        ≡ some false)
drain_undone_example =
    drain_undone "a" 60 0 1000 9 idle (init_stats pool []) initial_stats (backend "a" 3 2) counted_a
      found_a refl
