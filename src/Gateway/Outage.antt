-- ===== src/Gateway/Outage.antt =====
-- How the answers of a backend take it out of rotation (src/proxy/proxyMiddleware.js,
-- src/resilience/circuitBreakerManager.js).
use sentinel_adc.Base.{
  ℕ, suc, ◌+◌, ◌≡◌, ◌≤◌, ◌<◌, true, false, String, Option, none, some, List, [], ◌∷◌, arith, All,
  length, lookup, lookup-insert_self, le→leb, inl, inr, ◌⊎◌,
}
use sentinel_adc.Pool.{Backend, find}
use sentinel_adc.Pool.Laws.{find-modify_self}
use sentinel_adc.Circuit.{closed, opened, Breaker, Manager, record_failure}
use sentinel_adc.Circuit.Steps.{state_of}
use sentinel_adc.Proxy.{on_response}
use sentinel_adc.Routing.{healthy_now}
use sentinel_adc.Gateway.{Gateway, with_circuit, Op, responds, step, run}

-- The breaker is open and the backend out of rotation.
abbrev Tripped : Option Breaker → Option Backend → Type 0
Tripped none k = ⊥
Tripped (some r) k = (r.state ≡ opened) × (healthy_now k ≡ false)

-- The breaker is closed and opens within this many failures, or it is open.
abbrev Failing : ℕ → ℕ → Option Breaker → Option Backend → Type 0
Failing threshold left none k = ⊥
Failing threshold left (some r) k =
    ((r.state ≡ closed) × (threshold ≤ r.consecutive_failures + left) × (0 < left))
    ⊎ Tripped (some r) k

abbrev IsFailing : String → ℕ → Manager → Type 0
IsFailing id left m =
    (m.config.enabled ≡ true)
    × Failing m.config.failure_threshold left (lookup id m.breakers) (find id m.pool)

IsFailing-record_failure :
    (id error : String) (now at left : ℕ) (m : Manager)
    → IsFailing id (suc left) m
    → IsFailing id left (record_failure id error now at m)
unfolding record_failure
IsFailing-record_failure id error now at left m h =
    grind (arith, lookup-insert_self, find-modify_self)

IsFailing-on_response :
    (id : String) (status : ℕ) (text : String) (now at left : ℕ) (m : Manager)
    → 500 ≤ status
    → IsFailing id (suc left) m
    → IsFailing id left (on_response (some id) status text now at m)
unfolding on_response
IsFailing-on_response id status text now at left m bad h =
    rw (le→leb 500 status bad) (IsFailing-record_failure id text now at left m h)

Failing-tripped :
    (threshold : ℕ) (o : Option Breaker) (k : Option Backend)
    → Failing threshold 0 o k
    → (state_of o ≡ opened) × (healthy_now k ≡ false)
Failing-tripped threshold none k h = absurd h
Failing-tripped threshold (some r) k (inl (shut, enough, left)) = absurd (omega arith)
Failing-tripped threshold (some r) k (inr h) = h

-- The answers of this backend: a status, the text for the breaker, the readings of the clock.
abbrev pub answers : String → List (ℕ × String × ℕ × ℕ) → List Op
answers id [] = []
answers id ((status, text, now, at) ∷ rs) = responds id status text now at ∷ answers id rs

module _ (score : Backend → ℕ) (scaled : ℕ → ℕ → ℕ) (hash32 : String → ℕ) (show : ℕ → String)
    (vnodes_per_weight : ℕ) where
  run-IsFailing :
      (id : String) (rs : List (ℕ × String × ℕ × ℕ)) (g : Gateway)
      → All (λ r. 500 ≤ r.0) rs
      → IsFailing id (length rs) g.engine.circuit
      → IsFailing id 0
          (run score scaled hash32 show vnodes_per_weight (answers id rs) g).engine.circuit
  unfolding run step
  run-IsFailing id [] g bad h = h
  run-IsFailing id ((status, text, now, at) ∷ rs) g (b, bad) h =
      run-IsFailing id rs
        (with_circuit (on_response (some id) status text now at g.engine.circuit) g) bad
        (IsFailing-on_response id status text now at (length rs) g.engine.circuit b h)

  -- With the circuit breaker enabled: as many answers with a server error in a row as its threshold leaves
  -- open the closed breaker of a backend and take the backend out of rotation, although no health check has
  -- failed.
  pub answers_trip :
      (g : Gateway) (id : String) (r : Breaker) (rs : List (ℕ × String × ℕ × ℕ))
      → g.engine.circuit.config.enabled ≡ true
      → lookup id g.engine.circuit.breakers ≡ some r
      → r.state ≡ closed
      → All (λ a. 500 ≤ a.0) rs
      → 0 < length rs
      → g.engine.circuit.config.failure_threshold ≤ r.consecutive_failures + length rs
      → let m = (run score scaled hash32 show vnodes_per_weight (answers id rs) g).engine.circuit in
        (state_of (lookup id m.breakers) ≡ opened) × (healthy_now (find id m.pool) ≡ false)
  answers_trip g id r rs on known shut bad some_ enough =
      let start : IsFailing id (length rs) g.engine.circuit =
        (on, rw known (inl (shut, enough, some_))) in
      let (_, done) = run-IsFailing id rs g bad start in Failing-tripped _ _ _ done
