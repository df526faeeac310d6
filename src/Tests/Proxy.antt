-- ===== src/Tests/Proxy.antt =====
-- Runs of a request through the proxy.
use sentinel_adc.Base.{ℕ, ◌≡◌, ◌-◌, refl, arith, true, false, String, none, List, [], ◌∷◌}
use sentinel_adc.Circuit.{Manager, new}
use sentinel_adc.Proxy.{Exchange, Upstream, breaks, forward, gateway_error}
use sentinel_adc.Proxy.Retries.{forward_fails}
use sentinel_adc.Tests.{pool}

abbrev pub manager : Manager
manager =
    new
      (record {
        enabled = true;
        failure_threshold = 3;
        cooldown_ms = 30000;
        half_open_max_probes = 2;
      })
      pool 0

abbrev first_attempt : String → Exchange
first_attempt method = record {
  method = method;
  backend_id = none;
  failed_backends = [];
  attempts = 1;
  headers_sent = false;
}

abbrev random : ℕ → ℕ
random cap = cap - 1

abbrev four_failures : List (String × Upstream × ℕ × ℕ)
four_failures =
    ("a", breaks "ECONNREFUSED" false, 1, 1)
    ∷ ("b", breaks "ECONNREFUSED" false, 2, 2)
    ∷ ("c", breaks "ECONNREFUSED" false, 3, 3)
    ∷ ("a", breaks "ECONNREFUSED" false, 4, 4)
    ∷ []

forward_fails_example :
    ((forward random four_failures (first_attempt "GET") manager).0 ≡ gateway_error)
    × ((forward random four_failures (first_attempt "GET") manager).1 ≡ "a" ∷ "b" ∷ "c" ∷ [])
forward_fails_example =
    forward_fails random 2 four_failures (first_attempt "GET") manager refl (omega arith) refl
      (omega arith) (("ECONNREFUSED", refl), (("ECONNREFUSED", refl), (("ECONNREFUSED", refl), tt)))
