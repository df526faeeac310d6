-- ===== src/Health/Override.antt =====
-- The manual override of a backend's health.
use sentinel_adc.Base.{ℕ, ◌≡◌, Bool, true, false, String, Option, none, some, List, [], ◌∷◌, arith}
use sentinel_adc.Pool.{Backend, find, unhealthy}
use sentinel_adc.Pool.Laws.{find-modify_self}
use sentinel_adc.Health.{Check, Store, override, record_result}
use sentinel_adc.Health.Rotation.{record_all}

abbrev pub Disabled : Option Backend → Type 0
Disabled none = ⊥
Disabled (some b) = (b.admin_disabled ≡ true) × (b.healthy ≡ false) × (b.status ≡ unhealthy)

override-Disabled :
    (id : String) (st st' : Store) → override id false st ≡ some st' → Disabled (find id st'.pool)
unfolding override
override-Disabled id st st' e = grind (arith, find-modify_self)

record_result-Disabled :
    (id : String) (b : Bool) (latency now : ℕ) (st : Store)
    → Disabled (find id st.pool)
    → Disabled (find id (record_result id b latency now st).pool)
unfolding record_result
record_result-Disabled id b latency now st h = grind (arith, find-modify_self)

record_all-Disabled :
    (id : String) (h : List Check) (st : Store)
    → Disabled (find id st.pool)
    → Disabled (find id (record_all id h st).pool)
unfolding record_all
record_all-Disabled id [] st d = d
record_all-Disabled id (c ∷ older) st d =
    record_result-Disabled id c.success c.latency c.timestamp (record_all id older st)
      (record_all-Disabled id older st d)

-- A backend that an administrator has overridden to unhealthy stays `unhealthy` and out of rotation
-- under all results that the health store records of it.
pub override_sticky :
    (id : String) (st st' : Store) (h : List Check)
    → override id false st ≡ some st'
    → Disabled (find id (record_all id h st').pool)
override_sticky id st st' h e = record_all-Disabled id h st' (override-Disabled id st st' e)
