-- ===== src/Tests/Gateway.antt =====
-- A run of the gateway with two backends: requests, a health check, the administrator.
use mathlib.Core.Option
use sentinel_adc.Base.{
  suc, str_eq, ℕ, ◌≡◌, refl, arith, String, true, false, none, some, List, [], ◌∷◌, In,
  if◌then◌else◌, ◌==◌, lookup, insert,
}
use sentinel_adc.Pool.{Pool, Backend, Status, unhealthy, modify, create_backend_pool, find}
use sentinel_adc.Circuit.{closed, opened, Breaker, new, record_failure, can_execute}
use sentinel_adc.Health.{init_stats, initial_stats, override, record_result}
use sentinel_adc.Health.Monitor.{check_backend, passed, failed}
use sentinel_adc.Drain.{connect, disconnect}
use sentinel_adc.Routing.{Request, round_robin, healthy_now, get_healthy_backends, select_backend}
use sentinel_adc.Strategy.RoundRobin
use sentinel_adc.Gateway.{
  Gateway, pool_of, with_pool, Op, checks, overrides, routes, ends, route, step, run, decrement,
}
use sentinel_adc.Gateway.Untouched.{active}
use sentinel_adc.Gateway.Connections.{open_connections, connections_counted}
use sentinel_adc.Gateway.Recovery.{check_restores_service}
use sentinel_adc.Gateway.Targets.{target_in_rotation}
use sentinel_adc.Gateway.Outage.{answers, answers_trip}
use sentinel_adc.Circuit.Steps.{state_of}
use sentinel_adc.Tests.Balancing.{score, scaled, hash32, show, config}

abbrev backend_id : ℕ → String
backend_id n = if n == 1 then "a" else "b"

abbrev start : Pool
unfolding create_backend_pool
start = create_backend_pool backend_id (λ u. u) 0 ("http://a" ∷ "http://b" ∷ [])

abbrev gateway : Gateway
unfolding init_stats create_backend_pool new
gateway = record {
  stats = init_stats start [];
  engine = record {
    algorithm = round_robin;
    cyclic = record { index = 0 };
    weighted = record { next_index = 0; current_weight = 0 };
    circuit = new config start 0;
  };
  drain_timers = [];
  drain_events = [];
  connections = [];
}

abbrev request : Request
request = record { client_ip = 49 ∷ []; client_key = "client"; failed_backends = [] }

-- Two requests, and the first one ends twice.
abbrev ops : List Op
ops =
    routes request 5 5
    ∷ routes request 6 6
    ∷ checks "a" (failed "down" 9) 7 7
    ∷ overrides "b" false
    ∷ ends 0
    ∷ ends 0
    ∷ []

abbrev second : Backend
second = record {
  id = "b";
  url = "http://b";
  weight = 2;
  healthy = false;
  status = unhealthy;
  active_connections = 1;
  admin_disabled = true;
  on_drain_complete = false;
  drain_start_time = none;
}

found : find "b" (pool_of (run score scaled hash32 show 1 ops gateway)) ≡ some second
unfolding run step route select_backend decrement find create_backend_pool new init_stats
    check_backend override connect disconnect record_failure can_execute lookup insert
    RoundRobin.select modify record_result
found = refl

connections_counted_example :
    second.active_connections
    ≡ open_connections "b" (run score scaled hash32 show 1 ops gateway).connections
unfolding create_backend_pool new init_stats
connections_counted_example =
    connections_counted score scaled hash32 show 1 backend_id (λ u. u)
      ("http://a" ∷ "http://b" ∷ []) gateway ops "b" second refl refl found

-- Both backends are out of rotation, the first one not by an administrator.
abbrev failing : Backend
failing = record {
  id = "a";
  url = "http://a";
  weight = 3;
  healthy = false;
  status = unhealthy;
  active_connections = 0;
  admin_disabled = false;
  on_drain_complete = false;
  drain_start_time = none;
}

abbrev down : Gateway
unfolding create_backend_pool new init_stats
down = with_pool (failing ∷ second ∷ []) gateway

abbrev restored : Gateway
restored = step score scaled hash32 show 1 (checks "a" (passed 9) 8 8) down

check_restores_service_example :
    (k : Backend) × ((route score scaled hash32 show 1 request 9 9 restored).0 ≡ some k)
    × In k (get_healthy_backends 9 9 restored.engine.circuit).0
unfolding find lookup create_backend_pool new init_stats insert
check_restores_service_example =
    check_restores_service score scaled hash32 show 1 down "a" 9 8 8 request 9 9 failing
      initial_stats (omega arith) refl refl refl

abbrev first : Backend
first = record failing { healthy = true; status = Status.healthy }

chosen : (route score scaled hash32 show 1 request 5 5 gateway).0 ≡ some first
unfolding route select_backend find create_backend_pool new init_stats can_execute lookup insert
    RoundRobin.select
chosen = refl

target_in_rotation_example :
    (healthy_now (find "a" (pool_of gateway)) ≡ true)
    × (active "a" (pool_of (route score scaled hash32 show 1 request 5 5 gateway).1) ≡ (
        if str_eq "a" "a"
        then Option.map suc (active "a" (pool_of gateway))
        else active "a" (pool_of gateway)))
    × ((route score scaled hash32 show 1 request 5 5 gateway).1.connections
        ≡ record { backend_id = "a"; decremented = false } ∷ [])
    × ((route score scaled hash32 show 1 request 5 5 gateway).1.stats ≡ gateway.stats)
    × ((route score scaled hash32 show 1 request 5 5 gateway).1.drain_timers ≡ [])
unfolding gateway
target_in_rotation_example =
    target_in_rotation score scaled hash32 show 1 gateway request 5 5 first "a" (omega arith) chosen

-- The breaker of the first backend, which has counted nothing yet.
abbrev breaker : Breaker
breaker = record {
  url = "http://a";
  state = closed;
  consecutive_failures = 0;
  last_state_change = 0;
  probe_count = 0;
  last_error = none;
}

abbrev errors : List (ℕ × String × ℕ × ℕ)
errors = (500, "HTTP 500", 1, 1) ∷ (503, "HTTP 503", 2, 2) ∷ (500, "HTTP 500", 3, 3) ∷ []

answers_trip_example :
    (state_of (
        lookup "a"
          (run score scaled hash32 show 1 (answers "a" errors) gateway).engine.circuit.breakers)
      ≡ opened)
    × (healthy_now (
          find "a"
            (run score scaled hash32 show 1 (answers "a" errors) gateway).engine.circuit.pool)
        ≡ false)
unfolding gateway insert lookup
answers_trip_example =
    answers_trip score scaled hash32 show 1 gateway "a" breaker errors refl refl refl (omega arith)
      (omega arith) (omega arith)
