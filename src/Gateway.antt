-- ===== src/Gateway.antt =====
-- The components that share the pool, in one state: the router of src/proxy/proxyMiddleware.js, which
-- counts the connections, and the calls that the health monitor, the proxy and the routes of the API make
-- of the health store, the circuit breaker and the drain manager. The operations may follow one another
-- in any order, as the events of the running gateway do.
pub mod Untouched
pub mod Connections
pub mod Recovery
pub mod Targets
pub mod Outage
use sentinel_adc.Base.{
  ℕ, zero, suc, Bool, true, false, String, Option, none, some, List, [], ◌∷◌, ◌++◌, Dict, get_elem?,
  if◌then◌else◌,
}
use sentinel_adc.Pool.{Pool, Backend}
use sentinel_adc.Circuit.{Manager, record_failure, reset}
use sentinel_adc.Health.{Stats, Store, override}
use sentinel_adc.Health.Monitor.{World, Probe, check_backend}
use sentinel_adc.Drain.{
  Drains, Event, drain_backend, undrain_backend, timer_expires, connect, disconnect,
}
use sentinel_adc.Routing.{Engine, Algorithm, Request, select_backend, set_algorithm}
use sentinel_adc.Proxy.{on_response}
use sentinel_adc.Api.{Parsed, change_weight}

-- What the closures of the router keep for one counted connection: the backend and `decremented`.
pub record Connection : Type 0 where
  pub backend_id : String
  pub decremented : Bool

-- The pool stands in the circuit breaker of the engine; the connections are in the order of their start.
pub record Gateway : Type 0 where
  pub stats : Dict Stats
  pub engine : Engine
  pub drain_timers : Dict ℕ
  pub drain_events : List Event
  pub connections : List Connection

abbrev pub pool_of : Gateway → Pool
pool_of g = g.engine.circuit.pool

-- A component's view of the state, and the state with the component's new one.
abbrev pub with_circuit : Manager → Gateway → Gateway
with_circuit m g = record g { engine = record (g.engine) { circuit = m } }

abbrev pub with_pool : Pool → Gateway → Gateway
with_pool p g = with_circuit (record (g.engine.circuit) { pool = p }) g

abbrev pub world_of : Gateway → World
world_of g = record { stats = g.stats; circuit = g.engine.circuit }

abbrev pub with_world : World → Gateway → Gateway
with_world w g = record (with_circuit w.circuit g) { stats = w.stats }

abbrev pub drains_of : Gateway → Drains
drains_of g = record { drain_timers = g.drain_timers; pool = pool_of g; events = g.drain_events }

abbrev pub with_drains : Drains → Gateway → Gateway
with_drains s g = record (with_pool s.pool g) {
  drain_timers = s.drain_timers;
  drain_events = s.events;
}

-- `POST /api/health/:id/override`; an unknown id changes nothing.
abbrev pub with_store : Option Store → Gateway → Gateway
with_store none g = g
with_store (some st) g = record (with_pool st.pool g) { stats = st.stats }

-- The router, from the choice of the engine on.
routed : Option (Backend × Algorithm) → Gateway → Option Backend × Gateway
unfolding connect
routed none g = (none, g)
routed (some (b, algorithm)) g = (
  some b,
  record (with_drains (connect b.id (drains_of g)) g) {
    connections = g.connections ++ record { backend_id = b.id; decremented = false } ∷ [];
  },
)

-- `decremented = true` for the connection with this number.
unfoldable pub mark_ended : ℕ → List Connection → List Connection
mark_ended i [] = []
mark_ended zero (c ∷ cs) = record c { decremented = true } ∷ cs
mark_ended (suc i) (c ∷ cs) = c ∷ mark_ended i cs

ended : ℕ → Option Connection → Gateway → Gateway
unfolding mark_ended
ended i none g = g
ended i (some c) g =
    if c.decremented then g else record (with_drains (disconnect c.backend_id (drains_of g)) g) {
      connections = mark_ended i g.connections;
    }

-- `decrement`, the listener of both `finish` and `close` of the response.
unfoldable pub decrement : ℕ → Gateway → Gateway
unfolding ended
decrement i g = ended i (get_elem? g.connections i) g

-- What may happen, with the readings of the clock: a check of a backend ends; the routes of the API are
-- called; a timer of a drain fires; the proxy asks for a target, gets an answer or an error from
-- a backend, and a response finishes or closes.
pub data Op : Type 0 where
  checks : String → Probe → ℕ → ℕ → Op
  overrides : String → Bool → Op
  drains : String → ℕ → ℕ → Op
  expires undrains : String → Op
  resets : String → ℕ → ℕ → Op
  weighs : String → Option Parsed → Op
  switches : String → Op
  routes : Request → ℕ → ℕ → Op
  responds : String → ℕ → String → ℕ → ℕ → Op
  breaks : String → String → ℕ → ℕ → Op
  ends : ℕ → Op

module _ (score : Backend → ℕ) (scaled : ℕ → ℕ → ℕ) (hash32 : String → ℕ) (show : ℕ → String)
    (vnodes_per_weight : ℕ) where
  -- The `router` option of the proxy: the chosen backend, whose URL is the target.
  unfoldable pub route : Request → ℕ → ℕ → Gateway → Option Backend × Gateway
  unfolding routed
  route req now at g =
      let (choice, e) =
        select_backend score scaled hash32 show vnodes_per_weight req now at g.engine in
      routed choice (record g { engine = e })

  unfoldable pub step : Op → Gateway → Gateway
  step (checks id p now at) g = with_world (check_backend id p now at (world_of g)) g
  step (overrides id healthy) g =
      with_store (override id healthy (record { stats = g.stats; pool = pool_of g })) g
  step (drains id timeout_sec now) g =
      with_drains (drain_backend id timeout_sec now (drains_of g)).1 g
  step (expires id) g = with_drains (timer_expires id (drains_of g)) g
  step (undrains id) g = with_drains (undrain_backend id (drains_of g)).1 g
  step (resets id now at) g = with_circuit (reset id now at g.engine.circuit).1 g
  step (weighs id weight) g = with_pool (change_weight id weight (pool_of g)).1 g
  step (switches name) g = record g { engine = (set_algorithm name g.engine).1 }
  step (routes req now at) g = (route req now at g).1
  step (responds id status text now at) g =
      with_circuit (on_response (some id) status text now at g.engine.circuit) g
  step (breaks id error now at) g = with_circuit (record_failure id error now at g.engine.circuit) g
  step (ends i) g = decrement i g

  unfoldable pub run : List Op → Gateway → Gateway
  run [] g = g
  run (o ∷ os) g = run os (step o g)
