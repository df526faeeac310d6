-- ===== src/Routing/Probes.antt =====
-- The health flag and the circuit breaker as the routing filter (src/routing/routingEngine.js) asks
-- for both.
use sentinel_adc.Base.{
  ℕ, ◌≡◌, refl, String, Bool, true, Option, none, some, List, [], ◌∷◌, arith, lookup, if◌then◌else◌,
  Bool-cases, inl, inr,
}
use sentinel_adc.Pool.{Pool, Backend, find}
use sentinel_adc.Circuit.{Manager, can_execute}
use sentinel_adc.Circuit.Steps.{executes, step}
use sentinel_adc.Circuit.Sync.{IsSync, Agree, step-IsSync}
use sentinel_adc.Strategy.Weighted.{Weighted}
use sentinel_adc.Routing.{
  Algorithm, round_robin, least_connections, weighted_round_robin, ip_hash, consistent_hash, Engine,
  Request, choose, with_weighted, select_backend, prefer_fresh, healthy_now, executable, resolve,
  get_healthy_backends,
}

-- The ids of these backends whose object in the pool is healthy.
unfoldable pub healthy_ids : Pool → List Backend → List String
healthy_ids p [] = []
healthy_ids p (b ∷ bs) =
    if healthy_now (find b.id p) then b.id ∷ healthy_ids p bs else healthy_ids p bs

Unmoved : Manager → Bool × Manager → Type 0
Unmoved m (ok, m') = (ok ≡ true) × (m'.pool ≡ m.pool) × (m'.events ≡ m.events)

can_execute-healthy :
    (id : String) (now at : ℕ) (m : Manager)
    → Agree (lookup id m.breakers) (find id m.pool)
    → healthy_now (find id m.pool) ≡ true
    → Unmoved m (can_execute id now at m)
unfolding can_execute Unmoved
can_execute-healthy id now at m sync h = ground arith

Passed : Manager → List Backend → List String × Manager → Type 0
Passed m bs (ids, m') = (ids ≡ healthy_ids m.pool bs) × (m'.pool ≡ m.pool) × (m'.events ≡ m.events)

executable-Passed :
    (now at : ℕ) (bs : List Backend) (m : Manager) → IsSync m → Passed m bs (executable now at bs m)
unfolding executable Passed healthy_ids Unmoved step
executable-Passed now at [] m h = (refl, refl, refl)
executable-Passed now at (b ∷ bs) m h = elim (Bool-cases (healthy_now (find b.id m.pool))) [
  | inl up ↦
      let moved = can_execute-healthy b.id now at m (h b.id) up in
      let rest =
        executable-Passed now at bs (can_execute b.id now at m).1
          (step-IsSync b.id executes now at m h) in
      grind (arith, moved, rest)
  | inr out ↦ let rest = executable-Passed now at bs m h in grind (arith, rest)
]

-- While the pool agrees with the breakers, the engine's candidates are the backends that are healthy
-- in the pool: `canExecute` turns none of them down, and asking it leaves the pool as it is and
-- emits no event, so no breaker changes its state.
pub get_healthy_backends_lem :
    (now at : ℕ) (m : Manager)
    → IsSync m
    → ((get_healthy_backends now at m).0 ≡ resolve m.pool (healthy_ids m.pool m.pool))
      × ((get_healthy_backends now at m).1.pool ≡ m.pool)
      × ((get_healthy_backends now at m).1.events ≡ m.events)
unfolding get_healthy_backends Passed
get_healthy_backends_lem now at m h =
    let (ids, pool, events) = executable-Passed now at m.pool m h in
    (rw (ids, pool) refl, pool, events)

-- A strategy does not touch the circuit breaker: `canExecute` in the filter is the only call of it.
module _ (score : Backend → ℕ) (scaled : ℕ → ℕ → ℕ) (hash32 : String → ℕ) (show : ℕ → String)
    (vnodes_per_weight : ℕ) where
  circuit-with_weighted :
      (e : Engine) (o : Option (Backend × Weighted))
      → (with_weighted score scaled hash32 show vnodes_per_weight e o).1.circuit ≡ e.circuit
  unfolding with_weighted
  circuit-with_weighted e none = refl
  circuit-with_weighted e (some (b, w)) = refl

  circuit-choose :
      (a : Algorithm) (req : Request) (bs : List Backend) (e : Engine)
      → (choose score scaled hash32 show vnodes_per_weight a req bs e).1.circuit ≡ e.circuit
  unfolding choose
  circuit-choose round_robin req bs e = refl
  circuit-choose least_connections req bs e = refl
  circuit-choose weighted_round_robin req bs e = circuit-with_weighted e _
  circuit-choose ip_hash req bs e = refl
  circuit-choose consistent_hash req bs e = refl

  pub circuit-select_backend :
      (req : Request) (now at : ℕ) (e : Engine)
      → (select_backend score scaled hash32 show vnodes_per_weight req now at e).1.circuit
        ≡ (get_healthy_backends now at e.circuit).1
  unfolding select_backend
  circuit-select_backend req now at e =
      let (healthy, m) = get_healthy_backends now at e.circuit in
      let candidates = prefer_fresh req.failed_backends healthy in
      ground (arith, circuit-choose e.algorithm req candidates (record e { circuit = m }))
