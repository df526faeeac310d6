-- ===== src/Circuit.antt =====
-- The circuit breaker manager (src/resilience/circuitBreakerManager.js). A method takes the manager
-- and returns the new one; `now` and `at` are the readings of `Date.now()` of a method's own body
-- and of `transitionTo`. The message texts of the logs are left out.
pub mod Steps
pub mod Sync
pub mod Edges
pub mod Counting
use sentinel_adc.Base.{
  ℕ, suc, ◌+◌, ◌-◌, String, Bool, true, false, ◌||◌, Option, none, some, List, [], ◌∷◌, map, Dict,
  lookup, insert, leb, ltb, str_eq, if◌then◌else◌,
}
use sentinel_adc.Pool.{Pool, Backend, Status, unhealthy, degraded, find, modify}

-- `CIRCUIT_STATE`.
pub data Circuit : Type 0 where
  closed opened half_open : Circuit

pub Circuit-discrete : Discrete Circuit
Circuit-discrete = hlevel

abbrev pub circuit_eq : Circuit → Circuit → Bool
circuit_eq closed closed = true
circuit_eq opened opened = true
circuit_eq half_open half_open = true
circuit_eq _ _ = false

-- A record of the map `breakers`; its field `backendId` is the key of the map.
pub record Breaker : Type 0 where
  pub url : String
  pub state : Circuit
  pub consecutive_failures : ℕ
  pub last_state_change : ℕ
  pub probe_count : ℕ
  pub last_error : Option String

-- The emitted event `state-change` and the logged security event `circuit-breaker-tripped`.
pub data Event : Type 0 where
  state_change : String → Circuit → Circuit → ℕ → Event
  tripped : String → String → ℕ → Event

pub record Config : Type 0 where
  pub enabled : Bool
  pub failure_threshold : ℕ
  pub cooldown_ms : ℕ
  pub half_open_max_probes : ℕ

-- The manager, with the pool that it shares; `events` has the latest first.
pub record Manager : Type 0 where
  pub config : Config
  pub breakers : Dict Breaker
  pub pool : Pool
  pub events : List Event

fresh : String → ℕ → Breaker
fresh url now = record {
  url = url;
  state = closed;
  consecutive_failures = 0;
  last_state_change = now;
  probe_count = 0;
  last_error = none;
}

unfoldable pub init_breakers : ℕ → Pool → Dict Breaker → Dict Breaker
unfolding fresh
init_breakers now [] m = m
init_breakers now (b ∷ bs) m = init_breakers now bs (insert b.id (fresh b.url now) m)

unfoldable pub new : Config → Pool → ℕ → Manager
unfolding init_breakers
new c pool now = record {
  config = c;
  breakers = init_breakers now pool [];
  pool = pool;
  events = [];
}

-- The assignments to the fields of the breaker object that the map holds.
abbrev pub put : String → Breaker → Manager → Manager
put id b m = record m { breakers = insert id b m.breakers }

found : String → ℕ → Option Breaker → Manager → Breaker × Manager
found id now (some b) m = (b, m)
found id now none m = (fresh "" now, put id (fresh "" now) m)

unfoldable pub get_breaker : String → ℕ → Manager → Breaker × Manager
unfolding found fresh
get_breaker id now m = found id now (lookup id m.breakers) m

-- What `transitionTo` assigns to the backend of the pool.
abbrev pub mark : Circuit → Backend → Backend
mark opened b = record b { healthy = false; status = unhealthy }
mark half_open b = record b { healthy = false; status = degraded }
mark closed b = record b { healthy = true; status = Status.healthy }

abbrev trip_log : Circuit → String → Breaker → List Event → List Event
trip_log opened id b es = tripped id b.url b.consecutive_failures ∷ es
trip_log _ id b es = es

unfoldable pub transition_to : String → Circuit → ℕ → Breaker → Manager → Breaker × Manager
transition_to id new at b m =
    let b' = record b { state = new; last_state_change = at } in
    if circuit_eq b.state new then (b, m) else (
      b',
      record m {
        breakers = insert id b' m.breakers;
        pool = modify id (mark new) m.pool;
        events = state_change id b.state new at ∷ trip_log new id b' m.events;
      },
    )

-- The three states of `canExecute`.
admit : Circuit → String → ℕ → ℕ → Breaker → Manager → Bool × Manager
unfolding transition_to
admit closed id now at b m = (true, m)
admit opened id now at b m =
    let (b', m') = transition_to id half_open at b m in
    if leb (b.last_state_change + m.config.cooldown_ms) now
    then (true, put id (record b' { probe_count = 1 }) m')
    else (false, m)
admit half_open id now at b m =
    if ltb b.probe_count m.config.half_open_max_probes
    then (true, put id (record b { probe_count = b.probe_count + 1 }) m)
    else (false, m)

-- `now - lastStateChange >= cooldownMs`, which may compare a negative number, is written as a sum.
unfoldable pub can_execute : String → ℕ → ℕ → Manager → Bool × Manager
unfolding admit get_breaker
can_execute id now at m =
    let (b, m') = get_breaker id now m in
    if m.config.enabled then admit b.state id now at b m' else (true, m)

unfoldable pub record_success : String → ℕ → ℕ → Manager → Manager
unfolding transition_to get_breaker
record_success id now at m =
    let (b, m') = get_breaker id now m in
    let b' = record b { consecutive_failures = 0 } in
    if m.config.enabled
    then if circuit_eq b.state half_open || circuit_eq b.state opened
      then (transition_to id closed at b' (put id b' m')).1
      else put id b' m'
    else m

-- The two tests of `recordFailure`, on the breaker that has counted the failure.
trip : Circuit → String → ℕ → Breaker → Manager → Manager
unfolding transition_to
trip half_open id at b m = (transition_to id opened at b m).1
trip closed id at b m =
    if leb m.config.failure_threshold b.consecutive_failures
    then (transition_to id opened at b m).1
    else m
trip opened id at b m = m

unfoldable pub record_failure : String → String → ℕ → ℕ → Manager → Manager
unfolding trip get_breaker
record_failure id error now at m =
    let (b, m') = get_breaker id now m in
    let b' = record b {
      consecutive_failures = b.consecutive_failures + 1;
      last_error = some error;
    } in
    if m.config.enabled then trip b.state id at b' (put id b' m') else m

pub record Snapshot : Type 0 where
  pub backend_id : String
  pub url : String
  pub state : Circuit
  pub consecutive_failures : ℕ
  pub last_state_change : ℕ
  pub cooldown_remaining_ms : ℕ
  pub last_error : Option String
  pub healthy_in_pool : Bool

abbrev pub or_url : String → Option Backend → String
or_url url none = url
or_url url (some b) = if str_eq url "" then b.url else url

abbrev pub is_healthy : Option Backend → Bool
is_healthy none = false
is_healthy (some b) = b.healthy

-- `Math.max(0, cooldownMs - (now - lastStateChange))` is a truncated difference.
unfoldable pub snapshot : Manager → ℕ → String × Breaker → Snapshot
snapshot m now (id, b) = record {
  backend_id = id;
  url = or_url b.url (find id m.pool);
  state = b.state;
  consecutive_failures = b.consecutive_failures;
  last_state_change = b.last_state_change;
  cooldown_remaining_ms =
      if circuit_eq b.state opened then b.last_state_change + m.config.cooldown_ms - now else 0;
  last_error = b.last_error;
  healthy_in_pool = is_healthy (find id m.pool);
}

unfoldable pub get_all_states : ℕ → Manager → List Snapshot
unfolding snapshot
get_all_states now m = map (snapshot m now) m.breakers

unfoldable pub reset : String → ℕ → ℕ → Manager → List Snapshot × Manager
unfolding transition_to get_breaker get_all_states
reset id now at m =
    let (b, m') = get_breaker id now m in
    let (c, m'') = transition_to id closed at b m' in
    let done = put id (record c { consecutive_failures = 0; last_error = none }) m'' in
    (get_all_states now done, done)
