-- ===== src/Pool.antt =====
-- The backend pool (src/config/backends.js): the list of mutable backend objects that the circuit
-- breaker, the health store, the drain manager, the metrics store and the routing engine share.
-- An assignment to a field of a backend that `find` returned is `modify` at its id.
pub mod Laws
use sentinel_adc.Base.{
  ℕ, zero, suc, ◌+◌, String, Bool, true, false, Option, none, some, List, [], ◌∷◌, str_eq,
  if◌then◌else◌, ◌==◌,
}

-- The strings that the code assigns to `backend.status`.
pub data Status : Type 0 where
  healthy degraded unhealthy draining offline : Status

pub record Backend : Type 0 where
  pub id : String
  pub url : String
  pub weight : ℕ
  pub healthy : Bool
  pub status : Status
  pub active_connections : ℕ
  -- `adminDisabled`, absent at first, which counts as false
  pub admin_disabled : Bool
  -- whether the property `onDrainComplete` is there
  pub on_drain_complete : Bool
  -- `drainStartTime`
  pub drain_start_time : Option ℕ

abbrev pub Pool : Type 0
Pool = List Backend

-- The staggered weights 3, 2, 1, 1, ....
initial_weight : ℕ → ℕ
initial_weight index = if index == 0 then 3 else if index == 1 then 2 else 1

-- `createBackendPool`, for the ids `backend-1`, `backend-2`, ... and the stripped URLs; both are
-- built by the string functions of the runtime, and are arguments here.
unfoldable pub create_backend_pool : (ℕ → String) → (String → String) → ℕ → List String → Pool
unfolding initial_weight
create_backend_pool backend_id strip index [] = []
create_backend_pool backend_id strip index (url ∷ urls) =
    record {
      id = backend_id (index + 1);
      url = strip url;
      weight = initial_weight index;
      healthy = true;
      status = healthy;
      active_connections = 0;
      admin_disabled = false;
      on_drain_complete = false;
      drain_start_time = none;
    }
    ∷ create_backend_pool backend_id strip (index + 1) urls

-- `pool.find(b => b.id === id)`.
unfoldable pub find : String → Pool → Option Backend
find i [] = none
find i (b ∷ bs) = if str_eq b.id i then some b else find i bs

-- The pool after assignments to the fields of the backend that `find` returns.
unfoldable pub modify : String → (Backend → Backend) → Pool → Pool
modify i f [] = []
modify i f (b ∷ bs) = if str_eq b.id i then f b ∷ bs else b ∷ modify i f bs
