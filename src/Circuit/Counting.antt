-- ===== src/Circuit/Counting.antt =====
-- How many requests and failures a breaker takes before it changes its state.
use sentinel_adc.Base.{
  ℕ, ◌+◌, ◌-◌, ◌≤◌, ◌<◌, ◌≡◌, ap, Bool, true, false, String, List, [], ◌∷◌, arith, min, max, length,
  if◌then◌else◌, leb,
}
use sentinel_adc.Circuit.{Manager, can_execute, record_failure}
use sentinel_adc.Circuit.Steps.{
  executes, fails, step, view, View, normal, failed_since, probing, spec, step-refines-spec,
  config-step,
}

-- The requests for one backend that `canExecute` lets through, one for each pair of clock readings.
unfoldable pub granted : String → List (ℕ × ℕ) → Manager → ℕ
granted id [] m = 0
granted id ((now, at) ∷ ts) m =
    let (ok, m') = can_execute id now at m in (if ok then 1 else 0) + granted id ts m'

-- The manager after these failures of one backend: the error and two clock readings of each.
unfoldable pub failures : String → List (String × ℕ × ℕ) → Manager → Manager
failures id [] m = m
failures id ((e, now, at) ∷ fs) m = failures id fs (record_failure id e now at m)

refines-executes :
    (id : String) (now at : ℕ) (m : Manager)
    → m.config.enabled ≡ true
    → ((can_execute id now at m).0, view id (can_execute id now at m).1)
      ≡ spec m.config executes now at (view id m)
unfolding step
refines-executes id now at m h = step-refines-spec id executes now at m h

refines-fails :
    (id e : String) (now at : ℕ) (m : Manager)
    → m.config.enabled ≡ true
    → view id (record_failure id e now at m) ≡ (spec m.config (fails e) now at (view id m)).1
unfolding step
refines-fails id e now at m h = ap (λ p. p.1) (step-refines-spec id (fails e) now at m h)

config-executes :
    (id : String) (now at : ℕ) (m : Manager) → (can_execute id now at m).1.config ≡ m.config
unfolding step
config-executes id now at m = config-step id executes now at m

config-fails :
    (id e : String) (now at : ℕ) (m : Manager) → (record_failure id e now at m).config ≡ m.config
unfolding step
config-fails id e now at m = config-step id (fails e) now at m

-- An enabled half-open breaker that has let `k` probes through and hears of no outcome lets exactly the
-- missing ones through, however many requests come and whenever they come.
pub granted-probing :
    (id : String) (ts : List (ℕ × ℕ)) (m : Manager) (k : ℕ)
    → m.config.enabled ≡ true
    → view id m ≡ probing k
    → granted id ts m ≡ min (length ts) (m.config.half_open_max_probes - k)
unfolding granted
granted-probing id [] m k h v = omega arith
granted-probing id ((now, at) ∷ ts) m k h v = ground (
  arith,
  refines-executes id now at m,
  config-executes id now at m,
  granted-probing id ts (can_execute id now at m).1 (k + 1),
  granted-probing id ts (can_execute id now at m).1 k,
)

-- An open breaker that hears of no outcome lets at most `halfOpenMaxProbes` requests through, or one
-- if that is 0, however many come and whenever they come. The breaker is enabled.
pub granted-opened :
    (id : String) (ts : List (ℕ × ℕ)) (m : Manager) (t : ℕ)
    → m.config.enabled ≡ true
    → view id m ≡ failed_since t
    → granted id ts m ≤ max 1 m.config.half_open_max_probes
unfolding granted
granted-opened id [] m t h v = omega arith
granted-opened id ((now, at) ∷ ts) m t h v = ground (
  arith,
  refines-executes id now at m,
  config-executes id now at m,
  granted-probing id ts (can_execute id now at m).1 1,
  granted-opened id ts (can_execute id now at m).1 t,
)

abbrev pub is_failed : View → Bool
is_failed (failed_since t) = true
is_failed _ = false

-- An open breaker stays open under failures.
failures-failed_since :
    (id : String) (fs : List (String × ℕ × ℕ)) (m : Manager) (t : ℕ)
    → m.config.enabled ≡ true
    → view id m ≡ failed_since t
    → view id (failures id fs m) ≡ failed_since t
unfolding failures
failures-failed_since id [] m t h v = v
failures-failed_since id ((e, now, at) ∷ fs) m t h v = ground (
  arith,
  refines-fails id e now at m,
  config-fails id e now at m,
  failures-failed_since id fs (record_failure id e now at m) t,
)

-- An enabled closed breaker that has counted `k` failures, below the threshold, is open after failures in a
-- row exactly when they reach the threshold.
pub failures-normal :
    (id : String) (fs : List (String × ℕ × ℕ)) (m : Manager) (k : ℕ)
    → m.config.enabled ≡ true
    → view id m ≡ normal k
    → k < m.config.failure_threshold
    → is_failed (view id (failures id fs m)) ≡ leb m.config.failure_threshold (k + length fs)
unfolding failures
failures-normal id [] m k h v lt = ground arith
failures-normal id ((e, now, at) ∷ fs) m k h v lt = ground (
  arith,
  refines-fails id e now at m,
  config-fails id e now at m,
  failures-normal id fs (record_failure id e now at m) (k + 1),
  failures-failed_since id fs (record_failure id e now at m) at,
)
