-- ===== src/Tests/Resilience.antt =====
-- Runs of the circuit breaker, the health store and the drain manager.
use sentinel_adc.Base.{ℕ, ◌≡◌, ◌++◌, refl, true, String, List, [], ◌∷◌, lookup, insert}
use sentinel_adc.Circuit.{Manager, Config, new, record_failure, can_execute}
use sentinel_adc.Circuit.Steps.{
  Call, executes, fails, step, run, answer, view, spec, step-refines-spec, normal, failed_since,
  probing,
}
use sentinel_adc.Circuit.Sync.{IsSync, run-new-IsSync}
use sentinel_adc.Circuit.Edges.{IsLogged, run-new-IsLogged}
use sentinel_adc.Tests.{pool}

abbrev config : Config
config = record {
  enabled = true;
  failure_threshold = 3;
  cooldown_ms = 30000;
  half_open_max_probes = 2;
}

-- Two failures of `a`, a third one, and a request after the cooldown.
abbrev two_failures : List (String × Call × ℕ × ℕ)
two_failures = ("a", fails "refused", 1, 1) ∷ ("a", fails "refused", 2, 2) ∷ []

abbrev three_failures : List (String × Call × ℕ × ℕ)
three_failures = two_failures ++ ("a", fails "refused", 3, 3) ∷ []

abbrev one_probe : List (String × Call × ℕ × ℕ)
one_probe = three_failures ++ ("a", executes, 40000, 40001) ∷ []

abbrev start : Manager
start = new config pool 0

counts : view "a" (run start two_failures) ≡ normal 2
unfolding run new step lookup insert can_execute record_failure
counts = refl

trips : view "a" (run start three_failures) ≡ failed_since 3
unfolding run new step lookup insert can_execute record_failure
trips = refl

probes : view "a" (run start one_probe) ≡ probing 1
unfolding run new step lookup insert can_execute record_failure
probes = refl

enabled : (run start one_probe).config.enabled ≡ true
unfolding run new step lookup insert can_execute record_failure
enabled = refl

step-refines-spec_example :
    (
      answer "a" (fails "late") 50000 50001 (run start one_probe),
      view "a" (step "a" (fails "late") 50000 50001 (run start one_probe)),
    )
    ≡ spec (run start one_probe).config (fails "late") 50000 50001 (view "a" (run start one_probe))
step-refines-spec_example =
    step-refines-spec "a" (fails "late") 50000 50001 (run start one_probe) enabled

run-new-IsLogged_example : IsLogged (run (new config pool 0) one_probe)
run-new-IsLogged_example = run-new-IsLogged config pool 0 one_probe

run-new-IsSync_example : IsSync (run (new config pool 0) one_probe)
run-new-IsSync_example = run-new-IsSync config pool 0 one_probe

enabled_open : (run start three_failures).config.enabled ≡ true
unfolding run new step lookup insert can_execute record_failure
enabled_open = refl

closed_start : view "a" start ≡ normal 0
unfolding new lookup insert
closed_start = refl
