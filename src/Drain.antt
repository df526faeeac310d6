-- ===== src/Drain.antt =====
-- The connection drain manager (src/admin/connectionDrainManager.js), with the count of active
-- connections that the proxy keeps (src/proxy/proxyMiddleware.js).
pub mod Lifecycle
pub mod Rejoin
use sentinel_adc.Base.{
  ℕ, ◌+◌, ◌-◌, ◌*◌, String, Bool, true, false, not, ◌&&◌, Option, none, some, List, [], ◌∷◌, Dict,
  lookup, insert, remove, is_some, ◌==◌, if◌then◌else◌,
}
use sentinel_adc.Pool.{Pool, Backend, Status, draining, offline, find, modify}

-- The logged security events `backend-drain-started` and `backend-drain-completed`.
pub data Event : Type 0 where
  started : String → ℕ → ℕ → Event
  completed : String → Event

-- `drainTimers` maps an id to the deadline of its timer; `events` has the latest first.
pub record Drains : Type 0 where
  pub drain_timers : Dict ℕ
  pub pool : Pool
  pub events : List Event

-- The message of the answer, or the exception.
pub data Answer : Type 0 where
  already_draining transitioned_offline initiated undrained not_found : Answer

abbrev pub is_draining : Status → Bool
is_draining draining = true
is_draining _ = false

unfoldable pub complete_drain : String → Drains → Drains
complete_drain id s = record {
  drain_timers = remove id s.drain_timers;
  pool =
      modify id (λ b. record b { status = offline; healthy = false; on_drain_complete = false })
        s.pool;
  events = completed id ∷ s.events;
}

-- The fields that `drainBackend` assigns first.
abbrev pub begin_drain : ℕ → Backend → Backend
begin_drain now b = record b { healthy = false; status = draining; drain_start_time = some now }

drain_found : String → ℕ → ℕ → Option Backend → Drains → Answer × Drains
unfolding complete_drain
drain_found id timeout_sec now none s = (not_found, s)
drain_found id timeout_sec now (some b) s =
    let s' = record s {
      pool = modify id (begin_drain now) s.pool;
      events = started id b.active_connections timeout_sec ∷ s.events;
    } in
    if is_draining b.status
    then (already_draining, s)
    else if b.active_connections == 0
    then (transitioned_offline, complete_drain id s')
    else (
      initiated,
      record s' {
        drain_timers = insert id (now + timeout_sec * 1000) (remove id s'.drain_timers);
        pool = modify id (λ b. record b { on_drain_complete = true }) s'.pool;
      },
    )

-- `drainBackend` at the time `now`, in milliseconds.
unfoldable pub drain_backend : String → ℕ → ℕ → Drains → Answer × Drains
unfolding drain_found
drain_backend id timeout_sec now s = drain_found id timeout_sec now (find id s.pool) s

when_draining : String → Option Backend → Drains → Drains
unfolding complete_drain
when_draining id none s = s
when_draining id (some b) s = if is_draining b.status then complete_drain id s else s

-- The callback of the timer, which fires only while the map holds it: `clearTimeout` and the
-- removal from the map go together.
unfoldable pub timer_expires : String → Drains → Drains
unfolding when_draining
timer_expires id s =
    if is_some (lookup id s.drain_timers) then when_draining id (find id s.pool) s else s

undrain_found : String → Option Backend → Drains → Answer × Drains
undrain_found id none s = (not_found, s)
undrain_found id (some b) s = (
  undrained,
  record s {
    drain_timers = remove id s.drain_timers;
    pool =
        modify id
          (λ b. record b {
            on_drain_complete = false;
            drain_start_time = none;
            status = Status.healthy;
            healthy = true;
          })
          s.pool;
  },
)

unfoldable pub undrain_backend : String → Drains → Answer × Drains
unfolding undrain_found
undrain_backend id s = undrain_found id (find id s.pool) s

-- The proxy counts a connection of the backend that it has chosen.
unfoldable pub connect : String → Drains → Drains
connect id s = record s {
  pool = modify id (λ b. record b { active_connections = b.active_connections + 1 }) s.pool;
}

-- `onDrainComplete`.
on_drain_complete : String → Backend → Drains → Drains
unfolding complete_drain
on_drain_complete id b s =
    if is_draining b.status && b.active_connections == 0 then complete_drain id s else s

call_back : String → Option Backend → Drains → Drains
unfolding on_drain_complete
call_back id none s = s
call_back id (some b) s =
    if b.on_drain_complete && b.active_connections == 0 then on_drain_complete id b s else s

-- `decrement`, on its first call; `Math.max(0, (n || 1) - 1)` is a truncated difference.
unfoldable pub disconnect : String → Drains → Drains
unfolding call_back
disconnect id s =
    let s' = record s {
      pool = modify id (λ b. record b { active_connections = b.active_connections - 1 }) s.pool;
    } in
    call_back id (find id s'.pool) s'
