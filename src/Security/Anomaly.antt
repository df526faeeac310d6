-- ===== src/Security/Anomaly.antt =====
-- The anomaly detector (src/security/anomalyDetector.js). The floating-point arithmetic of the language
-- is an argument; the literals 0.3 and 0.2 are the quotients 3 / 10 and 2 / 10. One evaluation reads the
-- clock once. The event log is given what the detector hands it in place of a request, where an absent
-- text is empty.
pub mod Counting
pub mod Enforcing
pub mod Unseen
use sentinel_adc.Base.{
  ℕ, ◌+◌, ◌-◌, Bool, true, false, not, ◌&&◌, ◌||◌, String, Option, none, some, List, [], ◌∷◌, ◌++◌,
  Dict, lookup, insert, str_eq, ltb, length, drop, if◌then◌else◌, map,
}
use sentinel_adc.Http.{Request, Strings, scalar, or, get_or}
use sentinel_adc.Security.{Event, Stamp, log_event}
use sentinel_adc.RateLimit.{RateLimiter, apply_penalty}

pub record Floats (F : Type 0) : Type 0 where
  pub of_nat : ℕ → F
  pub add : F → F → F
  pub sub : F → F → F
  pub mul : F → F → F
  pub div : F → F → F
  pub max : F → F → F
  pub sqrt : F → F
  pub round : F → F
  pub ge : F → F → Bool
  pub is_zero : F → Bool

pub record IpStats (F : Type 0) : Type 0 where
  pub ewma : F
  pub variance : F
  pub window_count : ℕ
  pub window_start : ℕ
  pub total_requests : ℕ
  pub total_anomalies : ℕ
  pub last_z_score : F
  pub last_flagged : Option ℕ

pub record Anomaly (F : Type 0) : Type 0 where
  pub ip : String
  pub current_rate : F
  pub ewma : F
  pub stddev : F
  pub z_score : F
  pub threshold : F
  pub timestamp : ℕ
  pub enforced : Bool

pub record AnomalyDetector (F : Type 0) : Type 0 where
  pub enabled : Bool
  pub z_threshold : F
  pub auto_enforce : Bool
  pub penalty_max_requests : ℕ
  pub penalty_window_ms : ℕ
  pub ip_stats : Dict (IpStats F)
  pub anomalies : List (Anomaly F)

pub record Baseline (F : Type 0) : Type 0 where
  pub ip : String
  pub ewma : F
  pub stddev : F
  pub total_requests : ℕ
  pub total_anomalies : ℕ
  pub last_z_score : F
  pub last_flagged : Option ℕ

abbrev pub window_ms : ℕ
window_ms = 10000

module _ {F : Type 0} (floats : Floats F) where
  -- A number rounded to hundredths.
  abbrev pub hundredths : F → F
  hundredths x = floats.div (floats.round (floats.mul x (floats.of_nat 100))) (floats.of_nat 100)

  abbrev pub alpha : F
  alpha = floats.div (floats.of_nat 3) (floats.of_nat 10)

  unfoldable pub new_stats : ℕ → IpStats F
  new_stats now = record {
    ewma = floats.of_nat 0;
    variance = floats.of_nat 1;
    window_count = 0;
    window_start = now;
    total_requests = 0;
    total_anomalies = 0;
    last_z_score = floats.of_nat 0;
    last_flagged = none;
  }

  abbrev pub stats_or : IpStats F → Option (IpStats F) → IpStats F
  stats_or new none = new
  stats_or new (some st) = st

  abbrev pub count_request : IpStats F → IpStats F
  count_request st = record st {
    window_count = st.window_count + 1;
    total_requests = st.total_requests + 1;
  }

  -- `recordRequest`.
  unfoldable pub record_request : String → ℕ → AnomalyDetector F → AnomalyDetector F
  unfolding new_stats
  record_request ip now d =
      let st = stats_or (new_stats now) (lookup ip d.ip_stats) in
      if not d.enabled || str_eq ip ""
      then d
      else record d { ip_stats = insert ip (count_request st) d.ip_stats }

  -- The middleware; the address is that of the connection.
  unfoldable pub middleware : Request → ℕ → AnomalyDetector F → AnomalyDetector F
  unfolding record_request
  middleware req now d =
      if d.enabled
      then record_request (get_or (or req.ip req.remote_address) "127.0.0.1") now d
      else d

  -- `Math.sqrt(Math.max(1.0, variance))`.
  abbrev pub stddev_of : F → F
  stddev_of variance = floats.sqrt (floats.max (floats.of_nat 1) variance)

  abbrev pub rate : ℕ → ℕ → F
  rate count elapsed =
      floats.mul
        (floats.div (floats.of_nat count) (floats.div (floats.of_nat elapsed) (floats.of_nat 1000)))
        (floats.of_nat 60)

  -- The statistics at the end of a window with this rate, after the first one, and what is flagged.
  unfoldable pub judge : F → Bool → String → ℕ → F → IpStats F → IpStats F × Option (Anomaly F)
  judge threshold enforced ip now current st =
      let stddev = stddev_of st.variance in
      let diff = floats.sub current st.ewma in
      let z = hundredths (floats.div diff stddev) in
      let keep = floats.sub (floats.of_nat 1) alpha in
      let ewma' = hundredths (floats.add (floats.mul alpha current) (floats.mul keep st.ewma)) in
      let variance' =
        hundredths
          (floats.mul keep (floats.add st.variance (floats.mul alpha (floats.mul diff diff)))) in
      let st' = record st {
        ewma = ewma';
        variance = variance';
        window_count = 0;
        window_start = now;
        last_z_score = z;
      } in
      if floats.ge z threshold && floats.ge current (floats.of_nat 15)
      then (
        record st' { total_anomalies = st.total_anomalies + 1; last_flagged = some now },
        some (record {
          ip = ip;
          current_rate = floats.round current;
          ewma = ewma';
          stddev = hundredths stddev;
          z_score = z;
          threshold = threshold;
          timestamp = now;
          enforced = enforced;
        }),
      )
      else (st', none)

  -- One entry in the loop of `evaluateWindows`.
  unfoldable pub evaluate_ip : F → Bool → String → ℕ → IpStats F → IpStats F × Option (Anomaly F)
  unfolding judge
  evaluate_ip threshold enforced ip now st =
      let elapsed = now - st.window_start in
      let current = rate st.window_count elapsed in
      if ltb elapsed window_ms
      then (st, none)
      else if floats.is_zero st.ewma
      then (
        record st {
          ewma = current;
          variance =
              floats.max (floats.of_nat 1)
                (floats.mul current (floats.div (floats.of_nat 2) (floats.of_nat 10)));
          window_count = 0;
          window_start = now;
        },
        none,
      )
      else judge threshold enforced ip now current st

  -- `push`, then `shift` if there are more than a hundred.
  unfoldable pub push_anomaly : Anomaly F → List (Anomaly F) → List (Anomaly F)
  push_anomaly a as' =
      let as'' = as' ++ a ∷ [] in if ltb 100 (length as'') then drop 1 as'' else as''

  -- What stands for the request in the log entry.
  abbrev pub pseudo_request : String → Request
  pseudo_request ip = record {
    method = "";
    original_url = "";
    url = "";
    path = "N/A (Rate Anomaly)";
    protocol = "";
    secure = false;
    headers = [];
    remote_address = none;
    ip = some ip;
    query = scalar;
    body = none;
  }

  -- The detector's list, the security log and the rate limiter.
  pub record World : Type 0 where
    pub anomalies : List (Anomaly F)
    pub events : List Event
    pub limiter : RateLimiter

  module _ (strings : Strings) (describe : Anomaly F → Dict String) (stamp : Stamp) where
    -- What a flagged address leads to; `describe` makes the texts of the log entry.
    unfoldable pub react : AnomalyDetector F → ℕ → Option (Anomaly F) → World → World
    unfolding push_anomaly
    react d now none w = w
    react d now (some a) w = record {
      anomalies = push_anomaly a w.anomalies;
      events =
          log_event strings stamp "statistical-anomaly" (pseudo_request a.ip) (describe a) w.events;
      limiter =
          if d.auto_enforce
          then apply_penalty a.ip d.penalty_max_requests d.penalty_window_ms "statistical-anomaly"
              now w.limiter
          else w.limiter;
    }

    unfoldable pub evaluate_entries :
        AnomalyDetector F → ℕ → Dict (IpStats F) → World → Dict (IpStats F) × World
    unfolding evaluate_ip react
    evaluate_entries d now [] w = ([], w)
    evaluate_entries d now ((ip, st) ∷ entries) w =
        let (st', found) = evaluate_ip d.z_threshold d.auto_enforce ip now st in
        let (rest, w') = evaluate_entries d now entries (react d now found w) in
        ((ip, st') ∷ rest, w')

    -- `evaluateWindows`.
    unfoldable pub evaluate_windows :
        ℕ
        → AnomalyDetector F
        → List Event
        → RateLimiter
        → AnomalyDetector F × List Event × RateLimiter
    unfolding evaluate_entries
    evaluate_windows now d events limiter =
        let w : World = record { anomalies = d.anomalies; events = events; limiter = limiter } in
        let (entries, w') = evaluate_entries d now d.ip_stats w in
        (record d { ip_stats = entries; anomalies = w'.anomalies }, w'.events, w'.limiter)

  abbrev pub set_auto_enforce : Bool → AnomalyDetector F → AnomalyDetector F
  set_auto_enforce enabled d = record d { auto_enforce = enabled }

  threshold_or : Option F → F
  threshold_or none = floats.of_nat 3
  threshold_or (some t) = if floats.is_zero t then floats.of_nat 3 else t

  -- `setZThreshold`; `none` is what is not a number.
  unfoldable pub set_z_threshold : Option F → AnomalyDetector F → AnomalyDetector F
  unfolding threshold_or
  set_z_threshold threshold d = record d { z_threshold = threshold_or threshold }

  abbrev pub get_anomalies : AnomalyDetector F → List (Anomaly F)
  get_anomalies d = d.anomalies

  abbrev pub baseline : String × IpStats F → Baseline F
  baseline (ip, st) = record {
    ip = ip;
    ewma = st.ewma;
    stddev = hundredths (stddev_of st.variance);
    total_requests = st.total_requests;
    total_anomalies = st.total_anomalies;
    last_z_score = st.last_z_score;
    last_flagged = st.last_flagged;
  }

  abbrev pub get_baselines : AnomalyDetector F → List (Baseline F)
  get_baselines d = map baseline d.ip_stats

  abbrev pub clear_anomalies : AnomalyDetector F → AnomalyDetector F
  clear_anomalies d = record d { ip_stats = []; anomalies = [] }
