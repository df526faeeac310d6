-- ===== src/Circuit/Sync.antt =====
-- The breakers and the pool: a breaker that is not closed keeps its backend out of rotation.
use sentinel_adc.Base.{
  ℕ, ◌≡◌, ◌≢◌, false, String, Option, none, some, List, [], ◌∷◌, arith, inl, inr, lookup,
  lookup-insert_self, str_eq, str_eq_iff, Bool-cases,
}
use sentinel_adc.Pool.{Pool, Backend, find, unhealthy, degraded}
use sentinel_adc.Pool.Laws.{find-modify_self}
use sentinel_adc.Circuit.{
  Circuit, closed, opened, half_open, Breaker, Manager, Config, can_execute, record_success,
  record_failure, reset, new,
}
use sentinel_adc.Circuit.Steps.{
  Call, executes, succeeds, resets, fails, step, run, view-step_ne, find-step_ne, state_of,
  new-closed,
}

abbrev Marked : Circuit → Backend → Type 0
Marked closed k = Unit
Marked opened k = (k.healthy ≡ false) × (k.status ≡ unhealthy)
Marked half_open k = (k.healthy ≡ false) × (k.status ≡ degraded)

abbrev pub Agree : Option Breaker → Option Backend → Type 0
Agree none k = Unit
Agree (some b) none = Unit
Agree (some b) (some k) = Marked b.state k

-- An open breaker's backend is `unhealthy`, a half-open one's is `degraded`, and both are out of
-- rotation.
abbrev pub IsSync : Manager → Type 0
IsSync m = (id : String) → Agree (lookup id m.breakers) (find id m.pool)

step-Agree :
    (id : String) (c : Call) (now at : ℕ) (m : Manager)
    → Agree (lookup id m.breakers) (find id m.pool)
    → Agree (lookup id (step id c now at m).breakers) (find id (step id c now at m).pool)
unfolding step can_execute record_success record_failure reset
step-Agree id executes now at m h = grind (arith, lookup-insert_self, find-modify_self)
step-Agree id succeeds now at m h = grind (arith, lookup-insert_self, find-modify_self)
step-Agree id resets now at m h = grind (arith, lookup-insert_self, find-modify_self)
step-Agree id (fails e) now at m h = grind (arith, lookup-insert_self, find-modify_self)

pub step-IsSync :
    (id : String) (c : Call) (now at : ℕ) (m : Manager) → IsSync m → IsSync (step id c now at m)
step-IsSync id c now at m h j = elim (Bool-cases (str_eq id j)) [
  | inl e ↦ rw (← (str_eq_iff id j).0 e) (step-Agree id c now at m (h id))
  | inr e ↦
      let ne : id ≢ j = (λ p. cc (e, (str_eq_iff id j).1 p)) in
      rw (view-step_ne id j c now at m ne, find-step_ne id j c now at m ne) (h j)
]

pub run-IsSync : (cs : List (String × Call × ℕ × ℕ)) (m : Manager) → IsSync m → IsSync (run m cs)
unfolding run
run-IsSync [] m h = h
run-IsSync ((id, c, now, at) ∷ cs) m h =
    run-IsSync cs (step id c now at m) (step-IsSync id c now at m h)

Agree-closed : (b : Option Breaker) (k : Option Backend) → state_of b ≡ closed → Agree b k
Agree-closed none k h = tt
Agree-closed (some b) none h = tt
Agree-closed (some b) (some k) h = rw h tt

-- After any calls of a new manager, if nothing else assigns to the pool, the pool agrees with the
-- breakers: an open breaker's backend is `unhealthy`, a half-open one's is `degraded`, and both are
-- out of rotation.
pub run-new-IsSync :
    (c : Config) (p : Pool) (now : ℕ) (cs : List (String × Call × ℕ × ℕ))
    → IsSync (run (new c p now) cs)
run-new-IsSync c p now cs =
    run-IsSync cs (new c p now) (λ id. Agree-closed _ _ (new-closed c p now id))
