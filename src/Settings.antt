-- ===== src/Settings.antt =====
-- The configuration (src/config/index.js): the environment and the parsing of numbers are arguments, and
-- `N` are the numbers of the language.
use sentinel_adc.Base.{
  ℕ, Bool, false, not, String, Option, none, some, List, [], ◌∷◌, str_eq, filter, map, ◌≡◌, arith,
  if◌then◌else◌,
}
use sentinel_adc.Http.{Strings, truthy}

-- `parseInt` and `parseFloat`, where `none` is NaN.
pub record Numbers (N : Type 0) : Type 0 where
  pub of_nat : ℕ → N
  pub is_zero : N → Bool
  pub parse_int : Option String → Option N
  pub parse_float : Option String → Option N

-- The non-empty pieces.
abbrev pub nonempty : String → Bool
nonempty s = not (str_eq s "")

pieces : Strings → Option String → List String → List String
pieces strings none fallback = fallback
pieces strings (some value) fallback = filter nonempty (map strings.trim (strings.split value ","))

unfoldable pub parse_list : Strings → Option String → List String → List String
unfolding pieces
parse_list strings value fallback = pieces strings (truthy value) fallback

pub record Config (N : Type 0) : Type 0 where
  pub port : N
  pub env : String
  pub tls_enabled : Bool
  pub tls_port : N
  pub tls_key_path : String
  pub tls_cert_path : String
  pub tls_redirect : Bool
  pub log_level : String
  pub log_format : String
  pub backends : List String
  pub algorithm : String
  pub sticky_session : Bool
  pub health_interval : N
  pub health_timeout : N
  pub health_path : String
  pub unhealthy_threshold : N
  pub healthy_threshold : N
  pub redis_host : String
  pub redis_port : N
  pub redis_password : Option String
  pub cache_enabled : Bool
  pub cache_ttl : N
  pub mongo_uri : String
  pub retention_days : N
  pub jwt_secret : String
  pub jwt_expiry : String
  pub window_ms : N
  pub max_requests : N
  pub anomaly_enabled : Bool
  pub z_threshold : N
  pub auto_enforce : Bool
  pub penalty_max_requests : N
  pub penalty_window_ms : N
  pub breaker_enabled : Bool
  pub failure_threshold : N
  pub cooldown_ms : N
  pub half_open_max_probes : N
  pub cors_origin : String

module _ {N : Type 0} (strings : Strings) (numbers : Numbers N)
    (variable : String → Option String) where
  -- `|| d` after a number, and after a text.
  abbrev pub or_number : Option N → ℕ → N
  or_number none d = numbers.of_nat d
  or_number (some n) d = if numbers.is_zero n then numbers.of_nat d else n

  abbrev pub or_text : Option String → String → String
  or_text none d = d
  or_text (some s) d = if str_eq s "" then d else s

  abbrev pub int : String → ℕ → N
  int name d = or_number (numbers.parse_int (variable name)) d

  abbrev pub string : String → String → String
  string name d = or_text (variable name) d

  -- `=== s`.
  abbrev pub equals : String → Option String → Bool
  equals s none = false
  equals s (some v) = str_eq v s

  unfoldable pub config : Config N
  unfolding parse_list
  config = record {
    port = int "PORT" 3000;
    env = string "NODE_ENV" "development";
    tls_enabled = equals "true" (variable "TLS_ENABLED");
    tls_port = int "TLS_PORT" 8443;
    tls_key_path = string "TLS_KEY_PATH" "./certs/server.key";
    tls_cert_path = string "TLS_CERT_PATH" "./certs/server.crt";
    tls_redirect = equals "true" (variable "TLS_REDIRECT");
    log_level = string "LOG_LEVEL" "info";
    log_format = string "LOG_FORMAT" "json";
    backends =
        parse_list strings (variable "BACKENDS")
          ("http://localhost:4001" ∷ "http://localhost:4002" ∷ "http://localhost:4003" ∷ []);
    algorithm = string "LB_ALGORITHM" "round-robin";
    sticky_session = equals "true" (variable "STICKY_SESSION");
    health_interval = int "HEALTH_CHECK_INTERVAL" 5000;
    health_timeout = int "HEALTH_CHECK_TIMEOUT" 3000;
    health_path = string "HEALTH_CHECK_PATH" "/health";
    unhealthy_threshold = int "UNHEALTHY_THRESHOLD" 3;
    healthy_threshold = int "HEALTHY_THRESHOLD" 2;
    redis_host = string "REDIS_HOST" "localhost";
    redis_port = int "REDIS_PORT" 6379;
    redis_password = truthy (variable "REDIS_PASSWORD");
    cache_enabled = not (equals "false" (variable "CACHE_ENABLED"));
    cache_ttl = int "CACHE_TTL" 60;
    mongo_uri = string "MONGO_URI" "mongodb://localhost:27017/sentinel-adc";
    retention_days = int "ANALYTICS_RETENTION_DAYS" 7;
    jwt_secret = string "JWT_SECRET" "sentinel-adc-secret-change-in-production";
    jwt_expiry = string "JWT_EXPIRY" "1h";
    window_ms = int "RATE_LIMIT_WINDOW_MS" 60000;
    max_requests = int "RATE_LIMIT_MAX_REQUESTS" 100;
    anomaly_enabled = not (equals "false" (variable "ANOMALY_DETECTION_ENABLED"));
    z_threshold = or_number (numbers.parse_float (variable "ANOMALY_Z_THRESHOLD")) 3;
    auto_enforce = equals "true" (variable "ANOMALY_AUTO_ENFORCE");
    penalty_max_requests = int "ANOMALY_PENALTY_MAX_REQUESTS" 10;
    penalty_window_ms = int "ANOMALY_PENALTY_WINDOW_MS" 300000;
    breaker_enabled = not (equals "false" (variable "CIRCUIT_BREAKER_ENABLED"));
    failure_threshold = int "CIRCUIT_BREAKER_FAILURE_THRESHOLD" 5;
    cooldown_ms = int "CIRCUIT_BREAKER_COOLDOWN_MS" 15000;
    half_open_max_probes = int "CIRCUIT_BREAKER_HALF_OPEN_PROBES" 1;
    cors_origin = string "CORS_ORIGIN" "http://localhost:5173";
  }

  or_number-nonzero :
      (d : ℕ) (o : Option N)
      → numbers.is_zero (numbers.of_nat d) ≡ false
      → numbers.is_zero (or_number o d) ≡ false
  or_number-nonzero d none h = h
  or_number-nonzero d (some n) h = ground arith

  -- As long as the defaults are no zeros, the window and the capacity of the rate limiter, by which it
  -- divides, and the thresholds of the circuit breaker are none, whatever the environment says.
  pub config_nonzero :
      numbers.is_zero (numbers.of_nat 60000) ≡ false
      → numbers.is_zero (numbers.of_nat 100) ≡ false
      → numbers.is_zero (numbers.of_nat 5) ≡ false
      → numbers.is_zero (numbers.of_nat 1) ≡ false
      → (numbers.is_zero config.window_ms ≡ false)
        × (numbers.is_zero config.max_requests ≡ false)
        × (numbers.is_zero config.failure_threshold ≡ false)
        × (numbers.is_zero config.half_open_max_probes ≡ false)
  unfolding config
  config_nonzero window capacity threshold probes = (
    or_number-nonzero 60000 _ window,
    or_number-nonzero 100 _ capacity,
    or_number-nonzero 5 _ threshold,
    or_number-nonzero 1 _ probes,
  )
