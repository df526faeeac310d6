-- ===== src/Tests.antt =====
-- Concrete runs: a pool of three backends, and the theorems applied to it.
pub mod Resilience
pub mod Health
pub mod Balancing
pub mod Limits
pub mod Proxy
pub mod Metrics
pub mod Cache
pub mod Security
pub mod Analytics
pub mod Api
pub mod Pipeline
pub mod Gateway
pub mod Process
pub mod Dashboard
use sentinel_adc.Base.{ℕ, String, true, false, none, [], ◌∷◌}
use sentinel_adc.Pool.{Backend, Pool, Status}

-- A healthy backend with a weight and some connections.
abbrev pub backend : String → ℕ → ℕ → Backend
backend id weight connections = record {
  id = id;
  url = "http://localhost";
  weight = weight;
  healthy = true;
  status = Status.healthy;
  active_connections = connections;
  admin_disabled = false;
  on_drain_complete = false;
  drain_start_time = none;
}

abbrev pub pool : Pool
pool = backend "a" 3 2 ∷ backend "b" 2 0 ∷ backend "c" 1 1 ∷ []
