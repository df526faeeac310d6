-- ===== src/Tests/Balancing.antt =====
-- Runs of the strategies and of the routing engine.
use sentinel_adc.Base.{
  ℕ, ◌≡◌, refl, arith, true, false, String, none, some, List, [], ◌∷◌, All, In, ◌⊎◌, length, filter,
  str_eq, if◌then◌else◌,
}
use sentinel_adc.Pool.{Backend, find}
use sentinel_adc.Circuit.{new, Config}
use sentinel_adc.Circuit.Sync.{IsSync, run-new-IsSync}
use sentinel_adc.Circuit.Steps.{run}
use sentinel_adc.Strategy.LeastConnections.{IsBest?, select-IsBest}
use sentinel_adc.Strategy.LeastConnections
use sentinel_adc.Strategy.Weighted.{Weighted}
use sentinel_adc.Strategy.Weighted
use sentinel_adc.Strategy.Weighted.Ends.{Chosen, select-Chosen}
use sentinel_adc.Strategy.ConsistentHash
use sentinel_adc.Strategy.ConsistentHash.{
  Entry, find_ring_index, build_ring, find_ring_index, sort, insert as insert_entry, vnodes,
  push_all,
}
use sentinel_adc.Strategy.ConsistentHash.Ring.{stays}
use sentinel_adc.Strategy.ConsistentHash.Stable.{select-stable}
use sentinel_adc.Routing.{
  Engine, Request, consistent_hash, select_backend, get_healthy_backends, has, resolve,
  prefer_fresh,
}
use sentinel_adc.Routing.Probes.{healthy_ids, get_healthy_backends_lem}
use sentinel_adc.Routing.Selection.{Promised, select_backend_lem}
use sentinel_adc.Tests.{backend, pool}

abbrev pub score : Backend → ℕ
score b = 100

abbrev pub scaled : ℕ → ℕ → ℕ
scaled weight health = weight

-- A toy digest: one place of the ring for each node of each backend.
abbrev pub hash32 : String → ℕ
hash32 s =
    if str_eq s "a#vnode-x"
    then 10
    else if str_eq s "b#vnode-x"
    then 20
    else if str_eq s "c#vnode-x"
    then 30
    else 15

abbrev pub show : ℕ → String
show n = "x"

select-IsBest_example : IsBest? score pool (LeastConnections.select score pool)
select-IsBest_example = select-IsBest score pool (omega arith)

select-Chosen_example :
    Chosen scaled score pool
      (Weighted.select scaled score pool (record { next_index = 5; current_weight = 7 }))
select-Chosen_example =
    select-Chosen scaled score pool (record { next_index = 5; current_weight = 7 }) (omega arith)

abbrev small_ring : List Entry
small_ring =
    record { hash = 10; backend_id = "a" }
    ∷ record { hash = 20; backend_id = "b" }
    ∷ record { hash = 30; backend_id = "a" }
    ∷ []

chooses_b : ConsistentHash.select hash32 show 1 "client" pool ≡ some (backend "b" 2 0)
unfolding ConsistentHash.select find find_ring_index build_ring vnodes insert_entry
chooses_b = refl

select-stable_example :
    ConsistentHash.select hash32 show 1 "client" (filter (stays "a") pool) ≡ some (backend "b" 2 0)
select-stable_example =
    select-stable hash32 show 1 "client" "a" pool (backend "b" 2 0) (omega arith) chooses_b refl

abbrev pub config : Config
config = record {
  enabled = true;
  failure_threshold = 3;
  cooldown_ms = 30000;
  half_open_max_probes = 2;
}

abbrev engine : Engine
engine = record {
  algorithm = consistent_hash;
  cyclic = record { index = 0 };
  weighted = record { next_index = 0; current_weight = 0 };
  circuit = new config pool 0;
}

abbrev request : Request
request = record { client_ip = 49 ∷ []; client_key = "client"; failed_backends = "b" ∷ [] }

select_backend_lem_example :
    ((length (get_healthy_backends 5 5 engine.circuit).0 ≡ 0)
      × ((select_backend score scaled hash32 show 1 request 5 5 engine).0 ≡ none))
    ⊎ ((b : Backend) × ((select_backend score scaled hash32 show 1 request 5 5 engine).0
          ≡ some (b, consistent_hash))
        × In b (get_healthy_backends 5 5 engine.circuit).0
        × ((has b.id ("b" ∷ []) ≡ false)
            ⊎ All (λ c. has c.id ("b" ∷ []) ≡ true) (get_healthy_backends 5 5 engine.circuit).0)
        × Promised score scaled hash32 show 1 consistent_hash request engine.cyclic engine.weighted
            (prefer_fresh ("b" ∷ []) (get_healthy_backends 5 5 engine.circuit).0)
            b)
select_backend_lem_example =
    select_backend_lem score scaled hash32 show 1 request 5 5 engine (omega arith)

start-IsSync : IsSync (new config pool 0)
unfolding run
start-IsSync = run-new-IsSync config pool 0 []

get_healthy_backends_lem_example :
    ((get_healthy_backends 5 5 (new config pool 0)).0
      ≡ resolve
          (new config pool 0).pool
          (healthy_ids (new config pool 0).pool (new config pool 0).pool))
    × ((get_healthy_backends 5 5 (new config pool 0)).1.pool ≡ (new config pool 0).pool)
    × ((get_healthy_backends 5 5 (new config pool 0)).1.events ≡ (new config pool 0).events)
get_healthy_backends_lem_example = get_healthy_backends_lem 5 5 (new config pool 0) start-IsSync
