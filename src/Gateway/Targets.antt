-- ===== src/Gateway/Targets.antt =====
-- Which backends the router hands a request to (src/proxy/proxyMiddleware.js, src/routing/routingEngine.js).
use mathlib.Core.Option
use sentinel_adc.Base.{
  if◌then◌else◌, str_eq, suc, ℕ, ◌≡◌, ◌<◌, refl, ap, ◌∙◌, true, false, String, some, List, [], ◌∷◌,
  ◌++◌, arith, Bool-cases, Option-cases, inl, inr, In, here, there, In-cases,
}
use sentinel_adc.Pool.{Pool, Backend, find}
use sentinel_adc.Pool.Laws.{find-modify, find-id}
use sentinel_adc.Circuit.{Manager, can_execute}
use sentinel_adc.Routing.{
  Request, select_backend, healthy_now, executable, resolve, get_healthy_backends,
}
use sentinel_adc.Routing.Selection.{select_backend_lem}
use sentinel_adc.Gateway.{Gateway, pool_of, drains_of, routed, route}
use sentinel_adc.Gateway.Untouched.{active, active-select_backend}
use sentinel_adc.Gateway.Connections.{active-connect}

-- To ask the circuit breaker puts no backend into rotation.
can_execute-healthy :
    (i j : String) (now at : ℕ) (m : Manager)
    → healthy_now (find j (can_execute i now at m).1.pool) ≡ true
    → healthy_now (find j m.pool) ≡ true
unfolding can_execute
can_execute-healthy i j now at m h = grind (arith, find-modify)

healthy-In-executable :
    (i : String) (now at : ℕ) (bs : List Backend) (m : Manager)
    → In i (executable now at bs m).0
    → healthy_now (find i m.pool) ≡ true
unfolding executable
healthy-In-executable i now at [] m h = elim h [ ]
healthy-In-executable i now at (b ∷ bs) m h = elim (Bool-cases (healthy_now (find b.id m.pool))) [
  | inl up ↦ elim (Bool-cases (can_execute b.id now at m).0) [
    | inl ok ↦ elim (In-cases (rw (executable, up, ok) at h)) [
      | inl e ↦ rw e up
      | inr later ↦
          can_execute-healthy b.id i now at m
            (healthy-In-executable i now at bs (can_execute b.id now at m).1 later)
    ]
    | inr kept ↦ can_execute-healthy b.id i now at m (
        healthy-In-executable i now at bs (can_execute b.id now at m).1
          (rw (executable, up, kept) at h))
  ]
  | inr out ↦ healthy-In-executable i now at bs m (rw (executable, out) at h)
]

In-resolve : (k : Backend) (p : Pool) (ids : List String) → In k (resolve p ids) → In k.id ids
unfolding resolve
In-resolve k p [] h = elim h [ ]
In-resolve k p (i ∷ is') h = elim (Option-cases (find i p)) [
  | inl e ↦ there (In-resolve k p is' (rw (resolve, e) at h))
  | inr (b, e) ↦ elim (In-cases (rw (resolve, e) at h)) [
    | inl same ↦ rw (ap (λ c. c.id) same ∙ find-id i p b e) here
    | inr later ↦ there (In-resolve k p is' later)
  ]
]

module _ (score : Backend → ℕ) (scaled : ℕ → ℕ → ℕ) (hash32 : String → ℕ) (show : ℕ → String)
    (vnodes_per_weight : ℕ) where
  -- With at least one virtual node per unit of weight, in every state of the gateway: a target of the
  -- router was in rotation before the request, its `activeConnections` is one more and that of every other
  -- backend the same as before, the new connection is one of this backend, and the health store, the
  -- timers and the other connections stay as they are.
  pub target_in_rotation :
      (g : Gateway) (req : Request) (now at : ℕ) (k : Backend) (j : String)
      → 0 < vnodes_per_weight
      → (route score scaled hash32 show vnodes_per_weight req now at g).0 ≡ some k
      → let g' = (route score scaled hash32 show vnodes_per_weight req now at g).1 in
        (healthy_now (find k.id (pool_of g)) ≡ true)
        × (active j (pool_of g') ≡ (
            if str_eq k.id j then Option.map suc (active j (pool_of g)) else active j (pool_of g)))
        × (g'.connections ≡ g.connections ++ record { backend_id = k.id; decremented = false } ∷ [])
        × (g'.stats ≡ g.stats)
        × (g'.drain_timers ≡ g.drain_timers)
  unfolding route routed get_healthy_backends
  target_in_rotation g req now at k j v h =
      elim (select_backend_lem score scaled hash32 show vnodes_per_weight req now at g.engine v) [
        | inl (empty, answer) ↦ cc (rw (routed, answer) at h)
        | inr (b, chosen, i, _, _) ↦
            let e : b ≡ k = ground arith in
            let up =
              healthy-In-executable b.id now at (pool_of g) g.engine.circuit (In-resolve b _ _ i) in
            let (choice, e') =
              select_backend score scaled hash32 show vnodes_per_weight req now at g.engine in
            let counted = active-connect j b.id (drains_of (record g { engine = e' })) in
            let before =
              active-select_backend score scaled hash32 show vnodes_per_weight j req now at
                g.engine in
            rw (← e, chosen) (up, rw before at counted, refl, refl, refl)
      ]
