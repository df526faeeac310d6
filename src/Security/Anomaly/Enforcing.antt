-- ===== src/Security/Anomaly/Enforcing.antt =====
-- Who is penalized after an evaluation.
use sentinel_adc.Base.{
  ℕ, ◌+◌, ◌≡◌, ◌∙◌, Bool, false, ◌&&◌, String, Option, none, some, List, [], ◌∷◌, Dict, lookup,
  lookup-insert, IsMap, str_eq, str_eq_refl, str_eq_iff, arith, is_some, if◌then◌else◌, Bool-cases,
  inl, inr,
}
use sentinel_adc.Http.{Strings}
use sentinel_adc.Security.{Event, Stamp}
use sentinel_adc.RateLimit.{RateLimiter, Penalty, apply_penalty}
use sentinel_adc.Security.Anomaly.{
  Floats, IpStats, Anomaly, AnomalyDetector, World, evaluate_ip, judge, react, evaluate_entries,
  evaluate_windows,
}

abbrev names : {F : Type 0} → Option (Anomaly F) → String → Bool
names none ip = false
names (some a) ip = str_eq a.ip ip

module _ {F : Type 0} (floats : Floats F) where
  names-evaluate_ip :
      (threshold : F) (enforced : Bool) (key ip : String) (now : ℕ) (st : IpStats F)
      → names (evaluate_ip floats threshold enforced key now st).1 ip
        ≡ (is_some (evaluate_ip floats threshold enforced key now st).1 && str_eq key ip)
  unfolding evaluate_ip judge
  names-evaluate_ip threshold enforced key ip now st = ground arith

  -- The address is flagged by an evaluation now.
  abbrev pub flagged : AnomalyDetector F → ℕ → String → Option (IpStats F) → Bool
  flagged d now ip none = false
  flagged d now ip (some st) = is_some (evaluate_ip floats d.z_threshold d.auto_enforce ip now st).1

  abbrev pub penalty : AnomalyDetector F → ℕ → Penalty
  penalty d now = record {
    max_requests = d.penalty_max_requests;
    expires_at = now + d.penalty_window_ms;
    reason = "statistical-anomaly";
  }

  module _ (strings : Strings) (describe : Anomaly F → Dict String) (stamp : Stamp) where
    penalties-react :
        (d : AnomalyDetector F) (now : ℕ) (ip : String) (o : Option (Anomaly F)) (w : World floats)
        → lookup ip (react floats strings describe stamp d now o w).limiter.penalized_ips ≡ (
            if d.auto_enforce && names o ip
            then some (penalty d now)
            else lookup ip w.limiter.penalized_ips)
    unfolding react apply_penalty
    penalties-react d now ip none w = ground arith
    penalties-react d now ip (some a) w =
        ground (arith, lookup-insert a.ip ip (penalty d now) w.limiter.penalized_ips)

    penalties-evaluate_entries :
        (d : AnomalyDetector F) (now : ℕ) (ip : String) (entries : Dict (IpStats F))
        (w : World floats)
        → IsMap entries
        → lookup ip
            (evaluate_entries floats strings describe stamp d now entries w).1.limiter.penalized_ips
          ≡ (if d.auto_enforce && flagged d now ip (lookup ip entries)
              then some (penalty d now)
              else lookup ip w.limiter.penalized_ips)
    unfolding evaluate_entries lookup
    penalties-evaluate_entries d now ip [] w h = ground arith
    penalties-evaluate_entries d now ip ((key, st) ∷ entries) w (fresh, h) =
        let o = (evaluate_ip floats d.z_threshold d.auto_enforce key now st).1 in
        let ih =
          penalties-evaluate_entries d now ip entries
            (react floats strings describe stamp d now o w) h in
        elim (Bool-cases (str_eq key ip)) [
          | inl same ↦
              let p : key ≡ ip = (str_eq_iff key ip).0 same in
              ih
              ∙ rw (← p) (
                  rw
                    (
                      fresh,
                      penalties-react d now key o w,
                      names-evaluate_ip d.z_threshold d.auto_enforce key key now st,
                      str_eq_refl key,
                    )
                    (ground arith))
          | inr other ↦
              ih
              ∙ rw
                  (
                    other,
                    penalties-react d now ip o w,
                    names-evaluate_ip d.z_threshold d.auto_enforce key ip now st,
                    other,
                  )
                  (ground arith)
        ]

    -- An evaluation penalizes exactly the addresses that it flags, and only if enforcement is on; the
    -- penalties of the other addresses stay as they are.
    pub penalties-evaluate_windows :
        (d : AnomalyDetector F) (now : ℕ) (ip : String) (events : List Event)
        (limiter : RateLimiter)
        → IsMap d.ip_stats
        → lookup ip
            (evaluate_windows floats strings describe stamp now d events limiter).2.penalized_ips
          ≡ (if d.auto_enforce && flagged d now ip (lookup ip d.ip_stats)
              then some (penalty d now)
              else lookup ip limiter.penalized_ips)
    unfolding evaluate_windows
    penalties-evaluate_windows d now ip events limiter h =
        penalties-evaluate_entries d now ip d.ip_stats
          (record { anomalies = d.anomalies; events = events; limiter = limiter }) h
