-- ===== src/Drain/Lifecycle.antt =====
-- A drain ends: the invariant of the timers and callbacks, and the ways to `offline`.
use mathlib.Core.Option
use sentinel_adc.Base.{
  ℕ, zero, suc, ◌+◌, ◌*◌, ◌≡◌, ◌≢◌, refl, Bool, true, false, ◌&&◌, String, Option, none, some, List,
  [], ◌∷◌, arith, lookup, lookup-insert_self, lookup-remove_self, lookup-insert_ne,
  lookup-remove_ne, is_some, ◌==◌, if◌then◌else◌, str_eq, str_eq_iff, Bool-cases, inl, inr,
}
use sentinel_adc.Pool.{Backend, Status, draining, offline, find}
use sentinel_adc.Pool.Laws.{find-modify_self, find-modify_ne}
use sentinel_adc.Drain.{
  Drains, drain_backend, timer_expires, undrain_backend, connect, disconnect, is_draining,
}

pub data Op : Type 0 where
  drains : ℕ → ℕ → Op
  expires undrains connects disconnects : Op

unfoldable pub step : String → Op → Drains → Drains
step id (drains timeout_sec now) s = (drain_backend id timeout_sec now s).1
step id expires s = timer_expires id s
step id undrains s = (undrain_backend id s).1
step id connects s = connect id s
step id disconnects s = disconnect id s

unfoldable pub run : List (String × Op) → Drains → Drains
run [] s = s
run ((id, o) ∷ os) s = run os (step id o s)

abbrev pub is_out : Status → Bool
is_out draining = true
is_out offline = true
is_out _ = false

-- What holds of a backend and of the presence of its timer.
abbrev Tracked : Bool → Option Backend → Type 0
Tracked timer none = Unit
Tracked timer (some b) =
    (timer ≡ is_draining b.status)
    × (b.on_drain_complete ≡ is_draining b.status)
    × (is_draining b.status && b.active_connections == 0 ≡ false)
    × (is_out b.status && b.healthy ≡ false)

-- A timer and a callback are there exactly for the draining backends, those have connections left,
-- and no draining or offline backend is in rotation.
abbrev pub IsTracked : Drains → Type 0
IsTracked s = (id : String) → Tracked (is_some (lookup id s.drain_timers)) (find id s.pool)

step-Tracked :
    (id : String) (o : Op) (s : Drains)
    → Tracked (is_some (lookup id s.drain_timers)) (find id s.pool)
    → Tracked (is_some (lookup id (step id o s).drain_timers)) (find id (step id o s).pool)
unfolding step drain_backend timer_expires undrain_backend connect disconnect
step-Tracked id (drains timeout_sec now) s h =
    grind (arith, lookup-insert_self, lookup-remove_self, find-modify_self)
step-Tracked id expires s h = grind (arith, lookup-remove_self, find-modify_self)
step-Tracked id undrains s h = grind (arith, lookup-remove_self, find-modify_self)
step-Tracked id connects s h = grind (arith, find-modify_self)
step-Tracked id disconnects s h = grind (arith, lookup-remove_self, find-modify_self)

step_ne :
    (id j : String) (o : Op) (s : Drains)
    → id ≢ j
    → (lookup j (step id o s).drain_timers ≡ lookup j s.drain_timers)
      × (find j (step id o s).pool ≡ find j s.pool)
unfolding step drain_backend timer_expires undrain_backend connect disconnect
step_ne id j (drains timeout_sec now) s h =
    grind (arith, lookup-insert_ne, lookup-remove_ne, find-modify_ne)
step_ne id j expires s h = grind (arith, lookup-remove_ne, find-modify_ne)
step_ne id j undrains s h = grind (arith, lookup-remove_ne, find-modify_ne)
step_ne id j connects s h = grind (arith, find-modify_ne)
step_ne id j disconnects s h = grind (arith, lookup-remove_ne, find-modify_ne)

step-IsTracked : (id : String) (o : Op) (s : Drains) → IsTracked s → IsTracked (step id o s)
step-IsTracked id o s h j = elim (Bool-cases (str_eq id j)) [
  | inl e ↦ rw (← (str_eq_iff id j).0 e) (step-Tracked id o s (h id))
  | inr e ↦
      let (timers, pool) = step_ne id j o s (λ p. cc (e, (str_eq_iff id j).1 p)) in
      rw (timers, pool) (h j)
]

-- Every sequence of operations of the drain manager, and of connections that come or go, keeps this: a
-- timer and a callback are there exactly for the draining backends, those have connections left, and
-- no draining or offline backend is in rotation.
pub run-IsTracked : (os : List (String × Op)) (s : Drains) → IsTracked s → IsTracked (run os s)
unfolding run
run-IsTracked [] s h = h
run-IsTracked ((id, o) ∷ os) s h = run-IsTracked os (step id o s) (step-IsTracked id o s h)

abbrev pub disconnect_times : ℕ → String → Drains → Drains
disconnect_times zero id s = s
disconnect_times (suc n) id s = disconnect_times n id (disconnect id s)

-- The backend is draining with its callback set and has `n` connections left.
abbrev pub Waits : ℕ → Option Backend → Type 0
Waits n none = ⊥
Waits n (some b) = (b.status ≡ draining) × (b.active_connections ≡ n) × (b.on_drain_complete ≡ true)

abbrev pub IsOffline : Option Backend → Type 0
IsOffline none = ⊥
IsOffline (some b) = (b.status ≡ offline) × (b.healthy ≡ false) × (b.on_drain_complete ≡ false)

disconnect-Waits :
    (id : String) (n : ℕ) (s : Drains)
    → Waits (suc (suc n)) (find id s.pool)
    → Waits (suc n) (find id (disconnect id s).pool)
unfolding disconnect
disconnect-Waits id n s h = grind (arith, find-modify_self)

disconnect_last :
    (id : String) (s : Drains)
    → Waits 1 (find id s.pool)
    → IsOffline (find id (disconnect id s).pool) × (lookup id (disconnect id s).drain_timers ≡ none)
unfolding disconnect
disconnect_last id s h = grind (arith, find-modify_self, lookup-remove_self)

-- A draining backend with its callback set and `n + 1` connections is `offline` and out of rotation,
-- with its timer and its callback cleared, after `n + 1` of them have closed.
pub drain_ends :
    (n : ℕ) (id : String) (s : Drains)
    → Waits (suc n) (find id s.pool)
    → IsOffline (find id (disconnect_times (suc n) id s).pool)
      × (lookup id (disconnect_times (suc n) id s).drain_timers ≡ none)
drain_ends zero id s h = disconnect_last id s h
drain_ends (suc n) id s h = drain_ends n id (disconnect id s) (disconnect-Waits id n s h)

-- What `drainBackend` makes of a backend with `n` connections that it finds.
abbrev pub Drained : ℕ → Option Backend → Type 0
Drained zero k = IsOffline k
Drained (suc n) k = Waits (suc n) k

-- A drain of a backend that is not draining yet takes it out of rotation: with no connection it is
-- `offline` at once, and otherwise it waits for its connections with a timer set to the deadline.
pub drain_backend_lem :
    (id : String) (timeout_sec now : ℕ) (s : Drains) (b : Backend)
    → find id s.pool ≡ some b
    → is_draining b.status ≡ false
    → let s' = (drain_backend id timeout_sec now s).1 in
      Drained b.active_connections (find id s'.pool)
      × (Option.map (λ k. k.healthy) (find id s'.pool) ≡ some false)
      × (lookup id s'.drain_timers
          ≡ (if b.active_connections == 0 then none else some (now + timeout_sec * 1000)))
unfolding drain_backend
drain_backend_lem id timeout_sec now s b f h = by_count b.active_connections refl
  where
    by_count :
        (n : ℕ)
        → b.active_connections ≡ n
        → let s' = (drain_backend id timeout_sec now s).1 in
          Drained n (find id s'.pool)
          × (Option.map (λ k. k.healthy) (find id s'.pool) ≡ some false)
          × (lookup id s'.drain_timers ≡ (if n == 0 then none else some (now + timeout_sec * 1000)))
    by_count zero e = grind (arith, find-modify_self, lookup-remove_self)
    by_count (suc n) e = grind (arith, find-modify_self, lookup-insert_self)

-- While the invariant holds, the deadline forces a draining backend offline, whatever connections it
-- has.
pub timer_expires-IsOffline :
    (id : String) (s : Drains) (b : Backend)
    → IsTracked s
    → find id s.pool ≡ some b
    → b.status ≡ draining
    → IsOffline (find id (timer_expires id s).pool)
unfolding timer_expires
timer_expires-IsOffline id s b h f d = let tracked = h id in grind (arith, find-modify_self)
