-- ===== src/Circuit/Edges.antt =====
-- The event log of the manager replays to its state, along the edges of the state diagram only.
use sentinel_adc.Base.{
  ℕ, ◌≡◌, ◌≢◌, false, String, List, [], ◌∷◌, arith, inl, inr, lookup, lookup-insert_self, str_eq,
  str_eq_iff, str_eq_refl, Bool-cases, if◌then◌else◌,
}
use sentinel_adc.Pool.{Pool}
use sentinel_adc.Circuit.{
  Circuit, closed, opened, half_open, Manager, Config, Event, state_change, tripped, can_execute,
  record_success, record_failure, reset, new,
}
use sentinel_adc.Circuit.Steps.{
  Call, executes, succeeds, resets, fails, step, run, view-step_ne, state_of, new-closed,
}

-- The edges of the state diagram.
abbrev pub Edge : Circuit → Circuit → Type 0
Edge closed opened = Unit
Edge opened half_open = Unit
Edge opened closed = Unit
Edge half_open opened = Unit
Edge half_open closed = Unit
Edge _ _ = ⊥

-- The state of a backend as a reader of the log knows it.
abbrev pub replay : String → List Event → Circuit
replay id [] = closed
replay id (state_change j from to at ∷ es) = if str_eq j id then to else replay id es
replay id (tripped j url n ∷ es) = replay id es

-- Every change starts from where the log before it ends, and follows an edge.
abbrev pub IsTrace : List Event → Type 0
IsTrace [] = Unit
IsTrace (state_change j from to at ∷ es) = (from ≡ replay j es) × Edge from to × IsTrace es
IsTrace (tripped j url n ∷ es) = IsTrace es

pub record IsLogged (m : Manager) : Type 0 where
  pub trace : IsTrace m.events
  pub current : (id : String) → state_of (lookup id m.breakers) ≡ replay id m.events

step-IsTrace :
    (id : String) (c : Call) (now at : ℕ) (m : Manager)
    → IsTrace m.events
    → state_of (lookup id m.breakers) ≡ replay id m.events
    → IsTrace (step id c now at m).events
      × (state_of (lookup id (step id c now at m).breakers) ≡ replay id (step id c now at m).events)
unfolding step can_execute record_success record_failure reset
step-IsTrace id executes now at m h e = grind (arith, lookup-insert_self, str_eq_refl id)
step-IsTrace id succeeds now at m h e = grind (arith, lookup-insert_self, str_eq_refl id)
step-IsTrace id resets now at m h e = grind (arith, lookup-insert_self, str_eq_refl id)
step-IsTrace id (fails x) now at m h e = grind (arith, lookup-insert_self, str_eq_refl id)

replay-step_ne :
    (id j : String) (c : Call) (now at : ℕ) (m : Manager)
    → str_eq id j ≡ false
    → replay j (step id c now at m).events ≡ replay j m.events
unfolding step can_execute record_success record_failure reset
replay-step_ne id j executes now at m h = ground arith
replay-step_ne id j succeeds now at m h = ground arith
replay-step_ne id j resets now at m h = ground arith
replay-step_ne id j (fails e) now at m h = ground arith

pub step-IsLogged :
    (id : String) (c : Call) (now at : ℕ) (m : Manager) → IsLogged m → IsLogged (step id c now at m)
step-IsLogged id c now at m h = record {
  trace = (step-IsTrace id c now at m h.trace (h.current id)).0;
  current = λ j. elim (Bool-cases (str_eq id j)) [
    | inl e ↦ rw (← (str_eq_iff id j).0 e) ((step-IsTrace id c now at m h.trace (h.current id)).1)
    | inr e ↦
        let ne : id ≢ j = (λ p. cc (e, (str_eq_iff id j).1 p)) in
        rw (view-step_ne id j c now at m ne, replay-step_ne id j c now at m e) (h.current j)
  ];
}

pub run-IsLogged :
    (cs : List (String × Call × ℕ × ℕ)) (m : Manager) → IsLogged m → IsLogged (run m cs)
unfolding run
run-IsLogged [] m h = h
run-IsLogged ((id, c, now, at) ∷ cs) m h =
    run-IsLogged cs (step id c now at m) (step-IsLogged id c now at m h)

new-IsLogged : (c : Config) (p : Pool) (now : ℕ) → IsLogged (new c p now)
new-IsLogged c p now = record {
  trace = unfold new in tt;
  current = λ id. unfold new in new-closed c p now id;
}

-- After any calls of a new manager the log of state changes is a path through the state diagram for
-- each backend, and it ends in the state of that backend's breaker.
pub run-new-IsLogged :
    (c : Config) (p : Pool) (now : ℕ) (cs : List (String × Call × ℕ × ℕ))
    → IsLogged (run (new c p now) cs)
run-new-IsLogged c p now cs = run-IsLogged cs (new c p now) (new-IsLogged c p now)
