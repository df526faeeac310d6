-- ===== src/Gateway/Connections.antt =====
-- The count of active connections (src/proxy/proxyMiddleware.js), whatever else happens to the pool.
use mathlib.Core.Option
use sentinel_adc.Base.{
  ℕ, zero, suc, ◌+◌, ◌-◌, ◌≡◌, refl, Bool, false, String, Option, none, some, List, [], ◌∷◌, ◌++◌,
  arith, get_elem?, if◌then◌else◌, str_eq, Bool-cases, Option-cases, inl, inr,
}
use sentinel_adc.Pool.{Backend, find, create_backend_pool}
use sentinel_adc.Health.{Store, override}
use sentinel_adc.Drain.{Drains, connect, disconnect}
use sentinel_adc.Routing.{Engine, Algorithm, select_backend, set_algorithm}
use sentinel_adc.Gateway.{
  Gateway, Connection, pool_of, world_of, drains_of, with_store, mark_ended, decrement, routed,
  route, step, run, Op, checks, overrides, drains, expires, undrains, resets, weighs, switches,
  routes, responds, breaks, ends,
}
use sentinel_adc.Gateway.Untouched.{
  active, active-modify, active-modify_by, active-check_backend, active-override,
  active-drain_backend, active-timer_expires, active-undrain_backend, active-reset,
  active-change_weight, active-on_response, active-record_failure, active-select_backend,
}

-- The connections of a backend that have not been decremented.
abbrev pub counts : String → Connection → ℕ
counts j c = if c.decremented then 0 else if str_eq c.backend_id j then 1 else 0

unfoldable pub open_connections : String → List Connection → ℕ
open_connections j [] = 0
open_connections j (c ∷ cs) = counts j c + open_connections j cs

abbrev Counted : Option ℕ → ℕ → Type 0
Counted none n = Unit
Counted (some a) n = a ≡ n

-- `activeConnections` of each backend is the number of its connections that have not ended.
abbrev pub IsCounted : Gateway → Type 0
IsCounted g = (j : String) → Counted (active j (pool_of g)) (open_connections j g.connections)

open_connections-append :
    (j : String) (cs : List Connection) (c : Connection)
    → open_connections j (cs ++ c ∷ []) ≡ open_connections j cs + counts j c
unfolding open_connections
open_connections-append j [] c = ground arith
open_connections-append j (d ∷ cs) c = ground (arith, open_connections-append j cs c)

-- A connection that ends was counted once.
open_connections-mark_ended :
    (j : String) (i : ℕ) (cs : List Connection) (c : Connection)
    → get_elem? cs i ≡ some c
    → open_connections j (mark_ended i cs) + counts j c ≡ open_connections j cs
unfolding open_connections mark_ended
open_connections-mark_ended j i [] c h = cc
open_connections-mark_ended j zero (d ∷ cs) c h = ground arith
open_connections-mark_ended j (suc i) (d ∷ cs) c h =
    ground (arith, open_connections-mark_ended j i cs c h)

-- What the two counting operations do to the count.
pub active-connect :
    (j i : String) (s : Drains)
    → active j (connect i s).pool
      ≡ (if str_eq i j then Option.map suc (active j s.pool) else active j s.pool)
unfolding connect
active-connect j i s = active-modify_by i j _ suc s.pool (λ b. refl) (λ b. omega arith)

abbrev less : ℕ → ℕ
less a = a - 1

active-disconnect :
    (j i : String) (s : Drains)
    → active j (disconnect i s).pool
      ≡ (if str_eq i j then Option.map less (active j s.pool) else active j s.pool)
unfolding disconnect
active-disconnect j i s =
    let drop = λ (b : Backend). record b { active_connections = b.active_connections - 1 } in
    let counted = active-modify_by i j drop less s.pool (λ b. refl) (λ b. refl) in
    grind (arith, active-modify, counted)

Counted-start :
    (o : Option ℕ) (n : ℕ) (i j : String)
    → Counted o n
    → Counted
        (if str_eq i j then Option.map suc o else o)
        (n + counts j (record { backend_id = i; decremented = false }))
Counted-start none n i j h = ground arith
Counted-start (some a) n i j h = ground arith

Counted-end :
    (o : Option ℕ) (n k : ℕ) (c : Connection) (j : String)
    → c.decremented ≡ false
    → k + counts j c ≡ n
    → Counted o n
    → Counted (if str_eq c.backend_id j then Option.map less o else o) k
Counted-end none n k c j live e h = ground arith
Counted-end (some a) n k c j live e h = ground arith

routed-IsCounted :
    (choice : Option (Backend × Algorithm)) (g : Gateway)
    → IsCounted g
    → IsCounted (routed choice g).1
unfolding routed
routed-IsCounted none g h = h
routed-IsCounted (some (b, algorithm)) g h = λ j.
    rw (active-connect j b.id (drains_of g), open_connections-append j g.connections _)
      (Counted-start (active j (pool_of g)) (open_connections j g.connections) b.id j (h j))

decrement-IsCounted : (i : ℕ) (g : Gateway) → IsCounted g → IsCounted (decrement i g)
unfolding decrement
decrement-IsCounted i g h = elim (Option-cases (get_elem? g.connections i)) [
  | inl e ↦ rw e h
  | inr (c, e) ↦ elim (Bool-cases c.decremented) [
    | inl done ↦ rw e (rw done h)
    | inr live ↦ rw e (
        rw live (λ j. rw (active-disconnect j c.backend_id (drains_of g)) (
          Counted-end (active j (pool_of g)) (open_connections j g.connections)
            (open_connections j (mark_ended i g.connections)) c j live
            (open_connections-mark_ended j i g.connections c e) (h j))))
  ]
]

override-IsCounted :
    (id : String) (healthy : Bool) (g : Gateway) (o : Option Store)
    → override id healthy (record { stats = g.stats; pool = pool_of g }) ≡ o
    → IsCounted g
    → IsCounted (with_store o g)
override-IsCounted id healthy g none e h = h
override-IsCounted id healthy g (some st) e h = λ j. rw (active-override j id healthy _ st e) (h j)

circuit-set_algorithm : (n : String) (e : Engine) → (set_algorithm n e).1.circuit ≡ e.circuit
unfolding set_algorithm
circuit-set_algorithm n e = ground arith

module _ (score : Backend → ℕ) (scaled : ℕ → ℕ → ℕ) (hash32 : String → ℕ) (show : ℕ → String)
    (vnodes_per_weight : ℕ) where
  pub step-IsCounted :
      (o : Op) (g : Gateway)
      → IsCounted g
      → IsCounted (step score scaled hash32 show vnodes_per_weight o g)
  unfolding step route
  step-IsCounted (checks id p now at) g h =
      λ j. rw (active-check_backend j id p now at (world_of g)) (h j)
  step-IsCounted (overrides id healthy) g h = override-IsCounted id healthy g _ refl h
  step-IsCounted (drains id timeout_sec now) g h =
      λ j. rw (active-drain_backend j id timeout_sec now (drains_of g)) (h j)
  step-IsCounted (expires id) g h = λ j. rw (active-timer_expires j id (drains_of g)) (h j)
  step-IsCounted (undrains id) g h = λ j. rw (active-undrain_backend j id (drains_of g)) (h j)
  step-IsCounted (resets id now at) g h = λ j. rw (active-reset j id now at g.engine.circuit) (h j)
  step-IsCounted (weighs id weight) g h =
      λ j. rw (active-change_weight j id weight (pool_of g)) (h j)
  step-IsCounted (switches name) g h = λ j. rw (pool_of, circuit-set_algorithm name g.engine) (h j)
  step-IsCounted (routes req now at) g h =
      let (choice, e) =
        select_backend score scaled hash32 show vnodes_per_weight req now at g.engine in
      routed-IsCounted choice (record g { engine = e })
        (λ j.
          rw
            (active-select_backend score scaled hash32 show vnodes_per_weight j req now at g.engine)
            (h j))
  step-IsCounted (responds id status text now at) g h =
      λ j. rw (active-on_response j (some id) status text now at g.engine.circuit) (h j)
  step-IsCounted (breaks id error now at) g h =
      λ j. rw (active-record_failure j id error now at g.engine.circuit) (h j)
  step-IsCounted (ends i) g h = decrement-IsCounted i g h

  run-IsCounted :
      (os : List Op) (g : Gateway)
      → IsCounted g
      → IsCounted (run score scaled hash32 show vnodes_per_weight os g)
  unfolding run
  run-IsCounted [] g h = h
  run-IsCounted (o ∷ os) g h = run-IsCounted os _ (step-IsCounted o g h)

  -- A new pool has no connections.
  active-create :
      (backend_id : ℕ → String) (strip : String → String) (i : ℕ) (urls : List String) (j : String)
      → Counted (active j (create_backend_pool backend_id strip i urls)) 0
  unfolding create_backend_pool find
  active-create backend_id strip i [] j = tt
  active-create backend_id strip i (u ∷ us) j = elim (Bool-cases (str_eq (backend_id (i + 1)) j)) [
    | inl e ↦ rw e refl
    | inr e ↦ rw e (active-create backend_id strip (i + 1) us j)
  ]

  -- From a new pool without connections on, whatever the operations are and however they interleave,
  -- `activeConnections` of a backend is the number of the connections that the router has counted on it
  -- and that have neither finished nor closed: none is lost and none is counted twice.
  pub connections_counted :
      (backend_id : ℕ → String) (strip : String → String) (urls : List String) (g : Gateway)
      (os : List Op) (j : String) (b : Backend)
      → pool_of g ≡ create_backend_pool backend_id strip 0 urls
      → g.connections ≡ []
      → find j (pool_of (run score scaled hash32 show vnodes_per_weight os g)) ≡ some b
      → b.active_connections
        ≡ open_connections j (run score scaled hash32 show vnodes_per_weight os g).connections
  unfolding open_connections
  connections_counted backend_id strip urls g os j b new none_yet found =
      let start : IsCounted g =
        (λ k. rw (new, none_yet) (active-create backend_id strip 0 urls k)) in
      rw found at (run-IsCounted os g start j)
