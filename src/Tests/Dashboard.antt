-- ===== src/Tests/Dashboard.antt =====
-- The console of an administrator who is logged in.
use sentinel_adc.Base.{refl, String, true, false, none, some, [], ◌∷◌}
use sentinel_adc.Dashboard.{
  Dashboard, Call, Answer, accepted, handle_node_override, handle_unblock_ip, handle_clear_cache,
  handle_invalidate_cache,
}
use sentinel_adc.Dashboard.Calls.{segments, gateway_api, OnlyLogs, handlers_stray}

abbrev console : Dashboard
console = record {
  token = some "t";
  storage = some "t";
  username = "admin";
  password = "sentinel";
  login_error = "";
  online = true;
  mock = false;
  algorithm = "round-robin";
  backends = record { id = "backend-1"; healthy = true; override_status = none } ∷ [];
  blocked_ips = "9.9.9.9" ∷ [];
  target_block_ip = "";
  invalidate_pattern = "sentinel:*";
  custom_logs = [];
}

abbrev trim : String → String
trim s = s

abbrev api : Call → Answer (Unit {0})
unfolding gateway_api
api = gateway_api segments (λ t. true) (λ p c. accepted tt)

handlers_stray_example :
    OnlyLogs console (handle_node_override "12:00" trim api "backend-1" (some "unhealthy") console)
    × OnlyLogs console (handle_unblock_ip "12:00" trim api "9.9.9.9" console)
    × OnlyLogs console (handle_clear_cache "12:00" trim api console)
    × OnlyLogs console (handle_invalidate_cache "12:00" trim api console)
unfolding api
handlers_stray_example =
    handlers_stray "12:00" trim segments (λ t. true) (λ p c. accepted tt) console "backend-1"
      "9.9.9.9" (some "unhealthy") refl
      (λ p. (refl, refl), λ p. (refl, refl), λ p. (refl, refl), λ p. (refl, refl))
