-- ===== src/Drain/Rejoin.antt =====
-- The health store does not know of drains.
use mathlib.Core.Option
use sentinel_adc.Base.{ℕ, ◌≡◌, true, false, String, some, arith, lookup, Dict}
use sentinel_adc.Pool.{Backend, find}
use sentinel_adc.Pool.Laws.{find-modify_self}
use sentinel_adc.Health.{Stats, record_result}
use sentinel_adc.Health.Rotation.{healthy_in, id-update}
use sentinel_adc.Drain.{Drains, drain_backend}
use sentinel_adc.Drain.Lifecycle.{is_out}

-- One passed health check puts a backend that has just been drained back into rotation, if the health
-- store knows it and no administrator has disabled it, and its
-- status is then neither `draining` nor `offline`.
pub drain_undone :
    (id : String) (timeout_sec now latency later : ℕ) (s : Drains) (d : Dict Stats) (x : Stats)
    (b : Backend)
    → lookup id d ≡ some x
    → find id s.pool ≡ some b
    → b.admin_disabled ≡ false
    → let drained = (drain_backend id timeout_sec now s).1 in
      let checked =
        record_result id true latency later (record { stats = d; pool = drained.pool }) in
      (healthy_in (find id checked.pool) ≡ some true)
      × (Option.map (λ k. is_out k.status) (find id checked.pool) ≡ some false)
unfolding drain_backend record_result
drain_undone id timeout_sec now latency later s d x b l f a =
    grind (arith, find-modify_self, id-update)
