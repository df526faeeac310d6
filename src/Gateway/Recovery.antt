-- ===== src/Gateway/Recovery.antt =====
-- How a backend comes back (src/health/healthMonitor.js, src/routing/routingEngine.js).
use sentinel_adc.Base.{
  ℕ, ◌≡◌, ◌≢◌, ◌<◌, refl, Bool, true, false, not, ◌||◌, String, Option, none, some, List, [], ◌∷◌,
  arith, str_eq, str_eq_iff, Bool-cases, Option-cases, inl, inr, lookup, In, here, there, length,
  lookup-insert_self,
}
use sentinel_adc.Pool.{Pool, Backend, find}
use sentinel_adc.Pool.Laws.{find-modify_self}
use sentinel_adc.Circuit.{closed, circuit_eq, Breaker, Manager, can_execute, record_success}
use sentinel_adc.Circuit.Steps.{executes, step, state_of, view-step_ne, find-step_ne, config-step}
use sentinel_adc.Health.{Stats, record_result, count_check}
use sentinel_adc.Health.Rotation.{id-update}
use sentinel_adc.Health.Monitor.{World, passed, check_backend}
use sentinel_adc.Routing.{Request, healthy_now, executable, resolve, get_healthy_backends}
use sentinel_adc.Routing.Selection.{select_backend_lem}
use sentinel_adc.Gateway.{Gateway, pool_of, world_of, routed, route, checks}
use sentinel_adc.Gateway as Gateway

-- The backend is in rotation and its breaker lets requests through.
abbrev Ready : Bool → Option Breaker → Option Backend → Type 0
Ready enabled r o = (healthy_now o ≡ true) × (circuit_eq (state_of r) closed || not enabled ≡ true)

abbrev pub IsReady : String → Manager → Type 0
IsReady id m = Ready m.config.enabled (lookup id m.breakers) (find id m.pool)

IsReady-check_backend :
    (id : String) (latency now at : ℕ) (w : World) (b : Backend) (s : Stats)
    → find id w.circuit.pool ≡ some b
    → b.admin_disabled ≡ false
    → lookup id w.stats ≡ some s
    → IsReady id (check_backend id (passed latency) now at w).circuit
unfolding check_backend record_success record_result count_check
IsReady-check_backend id latency now at w b s f a l =
    grind (arith, find-modify_self, id-update, lookup-insert_self)

can_execute-IsReady_self :
    (id : String) (now at : ℕ) (m : Manager)
    → IsReady id m
    → ((can_execute id now at m).0 ≡ true) × IsReady id (can_execute id now at m).1
unfolding can_execute
can_execute-IsReady_self id now at m h = grind (arith, lookup-insert_self)

-- The question about any backend leaves a ready one ready.
can_execute-IsReady :
    (id i : String) (now at : ℕ) (m : Manager)
    → IsReady id m
    → IsReady id (can_execute i now at m).1
unfolding step
can_execute-IsReady id i now at m h = elim (Bool-cases (str_eq i id)) [
  | inl e ↦ rw ((str_eq_iff i id).0 e) (can_execute-IsReady_self id now at m h).1
  | inr e ↦
      let ne : i ≢ id = (λ p. cc (e, (str_eq_iff i id).1 p)) in
      let a = view-step_ne i id executes now at m ne in
      let b = find-step_ne i id executes now at m ne in
      let c = config-step i executes now at m in rw (a, b, c) h
]

executable-IsReady :
    (id : String) (now at : ℕ) (bs : List Backend) (m : Manager)
    → IsReady id m
    → IsReady id (executable now at bs m).1
unfolding executable
executable-IsReady id now at [] m h = h
executable-IsReady id now at (c ∷ bs) m h = elim (Bool-cases (healthy_now (find c.id m.pool))) [
  | inl up ↦ rw up (
      executable-IsReady id now at bs (can_execute c.id now at m).1
        (can_execute-IsReady id c.id now at m h))
  | inr out ↦ rw out (executable-IsReady id now at bs m h)
]

In-executable :
    (id : String) (now at : ℕ) (bs : List Backend) (m : Manager) (b : Backend)
    → find id bs ≡ some b
    → IsReady id m
    → In id (executable now at bs m).0
unfolding executable find
In-executable id now at [] m b f h = cc
In-executable id now at (c ∷ bs) m b f h = elim (Bool-cases (str_eq c.id id)) [
  | inl e ↦
      let same : c.id ≡ id = (str_eq_iff c.id id).0 e in
      let asked = can_execute-IsReady_self id now at m h in rw (same, h.0, asked.0) here
  | inr e ↦ elim (Bool-cases (healthy_now (find c.id m.pool))) [
    | inl up ↦ elim (Bool-cases (can_execute c.id now at m).0) [
      | inl ok ↦
          rw (up, ok)
            (there (
              In-executable id now at bs (can_execute c.id now at m).1 b (ground arith)
                (can_execute-IsReady id c.id now at m h)))
      | inr kept ↦
          rw (up, kept)
            (In-executable id now at bs (can_execute c.id now at m).1 b (ground arith)
              (can_execute-IsReady id c.id now at m h))
    ]
    | inr out ↦ rw out (In-executable id now at bs m b (ground arith) h)
  ]
]

resolve-pos :
    (id : String) (p : Pool) (ids : List String)
    → In id ids
    → healthy_now (find id p) ≡ true
    → 0 < length (resolve p ids)
unfolding resolve
resolve-pos id p [] j h = elim j [ ]
resolve-pos id p (i ∷ is') here h = elim (Option-cases (find i p)) [
  | inl e ↦ cc (e, h)
  | inr (b, e) ↦ rw (length, e) (omega arith)
]
resolve-pos id p (i ∷ is') (there j) h =
    let rest = resolve-pos id p is' j h in
    elim (Option-cases (find i p)) [
      | inl e ↦ rw (length, e) rest
      | inr (b, e) ↦ rw (length, e) (omega arith)
    ]

IsReady-candidates :
    (id : String) (now at : ℕ) (m : Manager) (b : Backend)
    → find id m.pool ≡ some b
    → IsReady id m
    → 0 < length (get_healthy_backends now at m).0
unfolding get_healthy_backends
IsReady-candidates id now at m b f h =
    resolve-pos id (executable now at m.pool m).1.pool (executable now at m.pool m).0
      (In-executable id now at m.pool m b f h) (executable-IsReady id now at m.pool m h).0

is_some-healthy : (o : Option Backend) → healthy_now o ≡ true → (b : Backend) × (o ≡ some b)
is_some-healthy none h = cc
is_some-healthy (some b) h = (b, refl)

module _ (score : Backend → ℕ) (scaled : ℕ → ℕ → ℕ) (hash32 : String → ℕ) (show : ℕ → String)
    (vnodes_per_weight : ℕ) where
  -- With at least one virtual node per unit of weight: whatever the state of the gateway is, once a
  -- backend that no administrator has disabled passes one health check, and the health store knows it,
  -- the router finds a target for the next request, whichever algorithm is set and also if this backend
  -- has failed that request before.
  pub check_restores_service :
      (g : Gateway) (id : String) (latency now at : ℕ) (req : Request) (now' at' : ℕ) (b : Backend)
      (s : Stats)
      → 0 < vnodes_per_weight
      → find id (pool_of g) ≡ some b
      → b.admin_disabled ≡ false
      → lookup id g.stats ≡ some s
      → let g' =
          Gateway.step score scaled hash32 show vnodes_per_weight
            (checks id (passed latency) now at)
            g in
        (k : Backend) × ((route score scaled hash32 show vnodes_per_weight req now' at' g').0
          ≡ some k)
        × In k (get_healthy_backends now' at' g'.engine.circuit).0
  unfolding Gateway.step route routed
  check_restores_service g id latency now at req now' at' b s v f a l =
      let w = check_backend id (passed latency) now at (world_of g) in
      let ready = IsReady-check_backend id latency now at (world_of g) b s f a l in
      let (c, met) = is_some-healthy _ ready.0 in
      let many = IsReady-candidates id now' at' w.circuit c met ready in
      let e = record (g.engine) { circuit = w.circuit } in
      elim (select_backend_lem score scaled hash32 show vnodes_per_weight req now' at' e v) [
        | inl (empty, _) ↦ absurd (omega arith)
        | inr (k, chosen, i, _, _) ↦ (k, rw chosen refl, i)
      ]
