-- ===== src/Routing.antt =====
-- The routing engine (src/routing/routingEngine.js) and the strategy factory
-- (src/routing/strategyFactory.js). The pool is the circuit breaker's, which shares it; the clock does
-- not move while one request is routed.
pub mod Selection
pub mod Probes
use sentinel_adc.Base.{
  ℕ, String, Bool, true, false, not, ◌&&◌, ◌||◌, Option, none, some, List, [], ◌∷◌, map, filter,
  length, ◌==◌, if◌then◌else◌, str_eq,
}
use sentinel_adc.Pool.{Pool, Backend, find}
use sentinel_adc.Circuit.{Manager, can_execute}
use sentinel_adc.Strategy.RoundRobin.{RoundRobin}
use sentinel_adc.Strategy.RoundRobin
use sentinel_adc.Strategy.Weighted.{Weighted}
use sentinel_adc.Strategy.Weighted
use sentinel_adc.Strategy.LeastConnections
use sentinel_adc.Strategy.IpHash
use sentinel_adc.Strategy.ConsistentHash

-- `LB_ALGORITHMS`.
pub data Algorithm : Type 0 where
  round_robin least_connections weighted_round_robin ip_hash consistent_hash : Algorithm

-- The keys of the factory's object, in their order.
unfoldable pub name : Algorithm → String
name round_robin = "round-robin"
name least_connections = "least-connections"
name weighted_round_robin = "weighted-round-robin"
name ip_hash = "ip-hash"
name consistent_hash = "consistent-hash"

abbrev pub algorithms : List Algorithm
algorithms = round_robin ∷ least_connections ∷ weighted_round_robin ∷ ip_hash ∷ consistent_hash ∷ []

unfoldable pub get_available_algorithms : List String
unfolding name
get_available_algorithms = map name algorithms

by_name : String → List Algorithm → Option Algorithm
unfolding name
by_name n [] = none
by_name n (a ∷ as') = if str_eq (name a) n then some a else by_name n as'

-- `getStrategy`; `none` is the exception for an unknown name.
unfoldable pub get_strategy : String → Option Algorithm
unfolding by_name
get_strategy n = by_name n algorithms

-- The engine, with the strategies that keep a state of their own.
pub record Engine : Type 0 where
  pub algorithm : Algorithm
  pub cyclic : RoundRobin
  pub weighted : Weighted
  pub circuit : Manager

-- What a request shows to the strategies, and the backends that have failed it before.
pub record Request : Type 0 where
  pub client_ip : List ℕ
  pub client_key : String
  pub failed_backends : List String

-- `pool.filter((b) => b.healthy && canExecute(b.id))`, over the objects at the positions of these
-- backends: the ids that pass, and the manager after the calls of `canExecute`.
abbrev pub healthy_now : Option Backend → Bool
healthy_now none = false
healthy_now (some b) = b.healthy

unfoldable pub executable : ℕ → ℕ → List Backend → Manager → List String × Manager
executable now at [] m = ([], m)
executable now at (b ∷ bs) m =
    let (ok, m') = can_execute b.id now at m in
    let (asked, rest) = executable now at bs m' in
    let (skipped, rest') = executable now at bs m in
    if healthy_now (find b.id m.pool)
    then (if ok then b.id ∷ asked else asked, rest)
    else (skipped, rest')

-- The objects of the pool with these ids, as they are after the filter.
unfoldable pub resolve : Pool → List String → List Backend
resolve p [] = []
resolve p (i ∷ is') = elim (find i p) [ none ↦ resolve p is' | some b ↦ b ∷ resolve p is' ]

unfoldable pub get_healthy_backends : ℕ → ℕ → Manager → List Backend × Manager
unfolding executable resolve
get_healthy_backends now at m =
    let (ids, m') = executable now at m.pool m in (resolve m'.pool ids, m')

unfoldable pub has : String → List String → Bool
has i [] = false
has i (j ∷ js) = str_eq j i || has i js

-- The candidates that have not failed this request, if there are any.
unfoldable pub prefer_fresh : List String → List Backend → List Backend
unfolding filter has
prefer_fresh failed healthy =
    let candidates = filter (λ b. not (has b.id failed)) healthy in
    if length candidates == 0 then healthy else candidates

module _ (score : Backend → ℕ) (scaled : ℕ → ℕ → ℕ) (hash32 : String → ℕ) (show : ℕ → String)
    (vnodes_per_weight : ℕ) where
  with_weighted : Engine → Option (Backend × Weighted) → Option Backend × Engine
  with_weighted e none = (none, e)
  with_weighted e (some (b, w)) = (some b, record e { weighted = w })

  -- `this._strategy.select(healthy, req)`.
  unfoldable pub choose : Algorithm → Request → List Backend → Engine → Option Backend × Engine
  unfolding with_weighted
  choose round_robin req bs e =
      let (b, s) = RoundRobin.select bs e.cyclic in (b, record e { cyclic = s })
  choose least_connections req bs e = (LeastConnections.select score bs, e)
  choose weighted_round_robin req bs e =
      with_weighted e (Weighted.select scaled score bs e.weighted)
  choose ip_hash req bs e = (IpHash.select req.client_ip bs, e)
  choose consistent_hash req bs e =
      (ConsistentHash.select hash32 show vnodes_per_weight req.client_key bs, e)

  -- `selectBackend`; the backend and the algorithm are what the code attaches to the request.
  unfoldable pub select_backend : Request → ℕ → ℕ → Engine → Option (Backend × Algorithm) × Engine
  unfolding choose get_healthy_backends prefer_fresh
  select_backend req now at e =
      let (healthy, m) = get_healthy_backends now at e.circuit in
      let candidates = prefer_fresh req.failed_backends healthy in
      let e' = record e { circuit = m } in
      let (b, e'') = choose e.algorithm req candidates e' in
      if length candidates == 0
      then (none, e')
      else (elim b [ none ↦ none | some k ↦ some (k, e.algorithm) ], e'')

-- `setAlgorithm`: the new engine, or the old one and the exception.
switch_to : Option Algorithm → Engine → Bool × Engine
switch_to none e = (false, e)
switch_to (some a) e = (true, record e { algorithm = a })

unfoldable pub set_algorithm : String → Engine → Bool × Engine
unfolding switch_to get_strategy
set_algorithm n e = switch_to (get_strategy n) e
