-- ===== src/Circuit/Steps.antt =====
-- The calls of the circuit breaker manager as data, and what one call does to the breaker of its
-- backend, to the other breakers and to the pool.
use sentinel_adc.Base.{
  ℕ, ◌+◌, ◌≡◌, ◌≢◌, refl, Bool, true, false, String, Option, none, some, List, [], ◌∷◌, arith,
  lookup, insert, lookup-insert, lookup-insert_self, Dict, lookup-insert_ne, leb, ltb,
  if◌then◌else◌,
}
use sentinel_adc.Pool.{Pool, find}
use sentinel_adc.Pool.Laws.{find-modify_ne}
use sentinel_adc.Circuit.{
  Circuit, closed, opened, half_open, Breaker, Manager, Config, can_execute, record_success,
  record_failure, reset, new, init_breakers, fresh,
}

pub data Call : Type 0 where
  executes succeeds resets : Call
  fails : String → Call

-- A call for one backend; `now` and `at` are its readings of the clock.
unfoldable pub step : String → Call → ℕ → ℕ → Manager → Manager
step id executes now at m = (can_execute id now at m).1
step id succeeds now at m = record_success id now at m
step id resets now at m = (reset id now at m).1
step id (fails e) now at m = record_failure id e now at m

unfoldable pub run : Manager → List (String × Call × ℕ × ℕ) → Manager
unfolding step
run m [] = m
run m ((id, c, now, at) ∷ cs) = run (step id c now at m) cs

-- The state of a breaker; a backend that the map does not know counts as closed.
abbrev pub state_of : Option Breaker → Circuit
state_of none = closed
state_of (some b) = b.state

-- What a client of the manager may know of one backend: the failures that a closed breaker has
-- counted, since when an open one is open, how many probes a half-open one has let through.
pub data View : Type 0 where
  normal failed_since probing : ℕ → View

abbrev view_state : Circuit → Breaker → View
view_state closed b = normal b.consecutive_failures
view_state opened b = failed_since b.last_state_change
view_state half_open b = probing b.probe_count

-- A backend that the map does not know counts as closed with no failure.
abbrev pub view_breaker : Option Breaker → View
view_breaker none = normal 0
view_breaker (some b) = view_state b.state b

abbrev pub view : String → Manager → View
view id m = view_breaker (lookup id m.breakers)

-- The textbook circuit breaker: the answer to a request and the next state.
abbrev pub spec : Config → Call → ℕ → ℕ → View → Bool × View
spec c executes now at (normal n) = (true, normal n)
spec c executes now at (failed_since t) =
    if leb (t + c.cooldown_ms) now then (true, probing 1) else (false, failed_since t)
spec c executes now at (probing k) =
    if ltb k c.half_open_max_probes then (true, probing (k + 1)) else (false, probing k)
spec c succeeds now at v = (true, normal 0)
spec c resets now at v = (true, normal 0)
spec c (fails e) now at (normal n) =
    (true, if leb c.failure_threshold (n + 1) then failed_since at else normal (n + 1))
spec c (fails e) now at (failed_since t) = (true, failed_since t)
spec c (fails e) now at (probing k) = (true, failed_since at)

-- The answer of a call; only `canExecute` has one.
abbrev pub answer : String → Call → ℕ → ℕ → Manager → Bool
answer id executes now at m = (can_execute id now at m).0
answer id _ now at m = true

view-executes :
    (id : String) (now at : ℕ) (m : Manager)
    → m.config.enabled ≡ true
    → view id (can_execute id now at m).1 ≡ (spec m.config executes now at (view id m)).1
unfolding can_execute
view-executes id now at m h = grind (arith, lookup-insert_self)

view-succeeds :
    (id : String) (now at : ℕ) (m : Manager)
    → m.config.enabled ≡ true
    → view id (record_success id now at m) ≡ normal 0
unfolding record_success
view-succeeds id now at m h = grind (arith, lookup-insert_self)

view-fails :
    (id e : String) (now at : ℕ) (m : Manager)
    → m.config.enabled ≡ true
    → view id (record_failure id e now at m) ≡ (spec m.config (fails e) now at (view id m)).1
unfolding record_failure
view-fails id e now at m h = grind (arith, lookup-insert_self)

pub view-resets :
    (id : String) (now at : ℕ) (m : Manager) → view id (reset id now at m).1 ≡ normal 0
unfolding reset
view-resets id now at m = grind (arith, lookup-insert_self)

answer-executes :
    (id : String) (now at : ℕ) (m : Manager)
    → m.config.enabled ≡ true
    → (can_execute id now at m).0 ≡ (spec m.config executes now at (view id m)).0
unfolding can_execute
answer-executes id now at m h = grind (arith, lookup-insert_self)

spec-fails :
    (c : Config) (e : String) (now at : ℕ) (v : View) → (spec c (fails e) now at v).0 ≡ true
spec-fails c e now at (normal n) = refl
spec-fails c e now at (failed_since t) = refl
spec-fails c e now at (probing k) = refl

-- While the manager is enabled, a call for one backend computes what the textbook breaker computes,
-- answer and state.
pub step-refines-spec :
    (id : String) (c : Call) (now at : ℕ) (m : Manager)
    → m.config.enabled ≡ true
    → (answer id c now at m, view id (step id c now at m)) ≡ spec m.config c now at (view id m)
unfolding step
step-refines-spec id executes now at m h =
    grind (arith, view-executes id now at m, answer-executes id now at m)
step-refines-spec id succeeds now at m h = ground (arith, view-succeeds id now at m)
step-refines-spec id resets now at m h = ground (arith, view-resets id now at m)
step-refines-spec id (fails e) now at m h =
    ground (arith, view-fails id e now at m, spec-fails m.config e now at (view id m))

-- It leaves the breakers of the other backends alone.
pub view-step_ne :
    (id j : String) (c : Call) (now at : ℕ) (m : Manager)
    → id ≢ j
    → lookup j (step id c now at m).breakers ≡ lookup j m.breakers
unfolding step can_execute record_success record_failure reset
view-step_ne id j executes now at m h = grind (arith, lookup-insert_ne)
view-step_ne id j succeeds now at m h = grind (arith, lookup-insert_ne)
view-step_ne id j resets now at m h = grind (arith, lookup-insert_ne)
view-step_ne id j (fails e) now at m h = grind (arith, lookup-insert_ne)

-- The pool changes at most at the backend of the call.
pub find-step_ne :
    (id j : String) (c : Call) (now at : ℕ) (m : Manager)
    → id ≢ j
    → find j (step id c now at m).pool ≡ find j m.pool
unfolding step can_execute record_success record_failure reset
find-step_ne id j executes now at m h = grind (arith, find-modify_ne)
find-step_ne id j succeeds now at m h = grind (arith, find-modify_ne)
find-step_ne id j resets now at m h = grind (arith, find-modify_ne)
find-step_ne id j (fails e) now at m h = grind (arith, find-modify_ne)

pub config-step :
    (id : String) (c : Call) (now at : ℕ) (m : Manager) → (step id c now at m).config ≡ m.config
unfolding step can_execute record_success record_failure reset
config-step id executes now at m = ground arith
config-step id succeeds now at m = ground arith
config-step id resets now at m = ground arith
config-step id (fails e) now at m = ground arith

-- A new manager has closed breakers only.
view-init_breakers :
    (j : String) (now : ℕ) (p : Pool) (d : Dict Breaker)
    → state_of (lookup j d) ≡ closed
    → state_of (lookup j (init_breakers now p d)) ≡ closed
unfolding init_breakers
view-init_breakers j now [] d h = h
view-init_breakers j now (b ∷ bs) d h =
    view-init_breakers j now bs (insert b.id (fresh b.url now) d)
      (unfold fresh in ground (arith, lookup-insert b.id j (fresh b.url now) d))

pub new-closed :
    (c : Config) (p : Pool) (now : ℕ) (j : String)
    → state_of (lookup j (new c p now).breakers) ≡ closed
unfolding new lookup
new-closed c p now j = view-init_breakers j now p [] refl
