-- ===== src/Security/Anomaly/Unseen.antt =====
-- A client that the detector has no entry for, and that has no penalty.
use sentinel_adc.Base.{
  ℕ, ◌≡◌, ◌≢◌, ◌∙◌, Bool, true, false, String, none, List, Dict, lookup, lookup-insert_ne, IsMap,
  insert-IsMap, arith, if◌then◌else◌, str_eq, not, ◌||◌,
}
use sentinel_adc.Http.{Request, Strings, get_or, or}
use sentinel_adc.Security.{Event, Stamp}
use sentinel_adc.RateLimit.{RateLimiter}
use sentinel_adc.Security.Anomaly.{
  Floats, Anomaly, AnomalyDetector, record_request, evaluate_windows,
}
use sentinel_adc.Security.Anomaly as Anomaly
use sentinel_adc.Security.Anomaly.Counting.{evaluate_entries-IsMap, none-evaluate_entries}
use sentinel_adc.Security.Anomaly.Enforcing.{penalties-evaluate_windows}

-- The address that the detector counts a request for.
abbrev pub connection : Request → String
connection req = get_or (or req.ip req.remote_address) "127.0.0.1"

-- Neither the detector nor the penalties know the client.
pub record IsMissed {F : Type 0} (client : String) (d : AnomalyDetector F) (l : RateLimiter)
    : Type 0 where
  pub map : IsMap d.ip_stats
  pub unseen : lookup client d.ip_stats ≡ none
  pub unpunished : lookup client l.penalized_ips ≡ none

if-IsMissed :
    {F : Type 0} (client : String) (l : RateLimiter) (b : Bool) (d e : AnomalyDetector F)
    → IsMissed client d l
    → IsMissed client e l
    → IsMissed client (if b then d else e) l
if-IsMissed client l true d e h k = h
if-IsMissed client l false d e h k = k

module _ {F : Type 0} (floats : Floats F) where
  record_request-IsMissed :
      (ip client : String) (now : ℕ) (d : AnomalyDetector F) (l : RateLimiter)
      → ip ≢ client
      → IsMissed client d l
      → IsMissed client (record_request floats ip now d) l
  unfolding record_request
  record_request-IsMissed ip client now d l ne h =
      if-IsMissed client l (not d.enabled || str_eq ip "") d _ h (record {
        map = insert-IsMap ip _ d.ip_stats h.map;
        unseen = lookup-insert_ne ip client _ d.ip_stats ne ∙ h.unseen;
        unpunished = h.unpunished;
      })

  pub middleware-IsMissed :
      (req : Request) (client : String) (now : ℕ) (d : AnomalyDetector F) (l : RateLimiter)
      → connection req ≢ client
      → IsMissed client d l
      → IsMissed client (Anomaly.middleware floats req now d) l
  unfolding Anomaly.middleware
  middleware-IsMissed req client now d l ne h =
      if-IsMissed client l d.enabled _ d
        (record_request-IsMissed (connection req) client now d l ne h) h

  pub evaluate_windows-IsMissed :
      (strings : Strings) (describe : Anomaly F → Dict String) (stamp : Stamp) (client : String)
      (now : ℕ) (d : AnomalyDetector F) (events : List Event) (l : RateLimiter)
      → IsMissed client d l
      → let (d', events', l') = evaluate_windows floats strings describe stamp now d events l in
        IsMissed client d' l'
  unfolding evaluate_windows
  evaluate_windows-IsMissed strings describe stamp client now d events l h = record {
    map = evaluate_entries-IsMap floats strings describe stamp d now d.ip_stats _ h.map;
    unseen = none-evaluate_entries floats strings describe stamp d now client d.ip_stats _ h.unseen;
    unpunished =
        penalties-evaluate_windows floats strings describe stamp d now client events l h.map
        ∙ rw h.unseen (ground (arith, h.unpunished));
  }
