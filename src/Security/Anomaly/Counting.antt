-- ===== src/Security/Anomaly/Counting.antt =====
-- What the detector's counters and its list hold.
use sentinel_adc.Base.{
  ℕ, suc, ◌≤◌, ◌≡◌, ◌≢◌, refl, ap, sym, ◌∙◌, subst, Bool, true, false, not, ◌||◌, String, Option,
  none, some, List, [], ◌∷◌, ◌++◌, Dict, lookup, insert, lookup-insert, IsMap, insert-IsMap, str_eq,
  str_eq_iff, arith, length, length-drop, length-append, if◌then◌else◌, Bool-cases, inl, inr,
}
use sentinel_adc.Http.{Strings}
use sentinel_adc.Security.{Event, Stamp}
use sentinel_adc.RateLimit.{RateLimiter}
use sentinel_adc.Security.Anomaly.{
  Floats, IpStats, Anomaly, AnomalyDetector, World, evaluate_ip, judge, react, evaluate_entries,
  evaluate_windows, record_request, push_anomaly, count_request, new_stats, stats_or,
}

-- A request of an address, or an evaluation, at a time.
pub data Step : Type 0 where
  requests : String → ℕ → Step
  evaluates : ℕ → Step

abbrev pub counted : String → List Step → ℕ
counted ip [] = 0
counted ip (requests j now ∷ es) = if str_eq j ip then suc (counted ip es) else counted ip es
counted ip (evaluates now ∷ es) = counted ip es

abbrev pub total : {F : Type 0} → Option (IpStats F) → ℕ
total none = 0
total (some st) = st.total_requests

module _ {F : Type 0} (floats : Floats F) (strings : Strings) (describe : Anomaly F → Dict String)
    (stamp : Stamp) where
  total-evaluate_ip :
      (threshold : F) (enforced : Bool) (ip : String) (now : ℕ) (st : IpStats F)
      → (evaluate_ip floats threshold enforced ip now st).0.total_requests ≡ st.total_requests
  unfolding evaluate_ip judge
  total-evaluate_ip threshold enforced ip now st = ground arith

  total-evaluate_entries :
      (d : AnomalyDetector F) (now : ℕ) (ip : String) (entries : Dict (IpStats F))
      (w : World floats)
      → total (lookup ip (evaluate_entries floats strings describe stamp d now entries w).0)
        ≡ total (lookup ip entries)
  unfolding evaluate_entries lookup
  total-evaluate_entries d now ip [] w = refl
  total-evaluate_entries d now ip ((key, st) ∷ entries) w = elim (Bool-cases (str_eq key ip)) [
    | inl same ↦ rw same (total-evaluate_ip d.z_threshold d.auto_enforce key now st)
    | inr other ↦ rw other (total-evaluate_entries d now ip entries _)
  ]

  pub none-evaluate_entries :
      (d : AnomalyDetector F) (now : ℕ) (ip : String) (entries : Dict (IpStats F))
      (w : World floats)
      → lookup ip entries ≡ none
      → lookup ip (evaluate_entries floats strings describe stamp d now entries w).0 ≡ none
  unfolding evaluate_entries lookup
  none-evaluate_entries d now ip [] w h = refl
  none-evaluate_entries d now ip ((key, st) ∷ entries) w h = elim (Bool-cases (str_eq key ip)) [
    | inl same ↦ (cc (rw same at h))
    | inr other ↦ rw other (none-evaluate_entries d now ip entries _ (rw other at h))
  ]

  pub evaluate_entries-IsMap :
      (d : AnomalyDetector F) (now : ℕ) (entries : Dict (IpStats F)) (w : World floats)
      → IsMap entries
      → IsMap (evaluate_entries floats strings describe stamp d now entries w).0
  unfolding evaluate_entries
  evaluate_entries-IsMap d now [] w h = tt
  evaluate_entries-IsMap d now ((key, st) ∷ entries) w (fresh, h) =
      (none-evaluate_entries d now key entries _ fresh, evaluate_entries-IsMap d now entries _ h)

  length-push_anomaly-le :
      (a : Anomaly F) (xs : List (Anomaly F))
      → length xs ≤ 100
      → length (push_anomaly floats a xs) ≤ 100
  unfolding push_anomaly
  length-push_anomaly-le a xs h =
      ground (arith, length-append xs (a ∷ []), length-drop 1 (xs ++ a ∷ []))

  length-react-le :
      (d : AnomalyDetector F) (now : ℕ) (o : Option (Anomaly F)) (w : World floats)
      → length w.anomalies ≤ 100
      → length (react floats strings describe stamp d now o w).anomalies ≤ 100
  unfolding react
  length-react-le d now none w h = h
  length-react-le d now (some a) w h = length-push_anomaly-le a w.anomalies h

  length-evaluate_entries-le :
      (d : AnomalyDetector F) (now : ℕ) (entries : Dict (IpStats F)) (w : World floats)
      → length w.anomalies ≤ 100
      → length (evaluate_entries floats strings describe stamp d now entries w).1.anomalies ≤ 100
  unfolding evaluate_entries
  length-evaluate_entries-le d now [] w h = h
  length-evaluate_entries-le d now ((key, st) ∷ entries) w h =
      length-evaluate_entries-le d now entries _
        (length-react-le d now (evaluate_ip floats d.z_threshold d.auto_enforce key now st).1 w h)

  -- The detector, the security log and the rate limiter after the steps, the latest first.
  unfoldable pub run :
      List Step
      → AnomalyDetector F × List Event × RateLimiter
      → AnomalyDetector F × List Event × RateLimiter
  unfolding record_request evaluate_windows
  run [] s = s
  run (requests ip now ∷ es) s =
      let (d, events, limiter) = run es s in (record_request floats ip now d, events, limiter)
  run (evaluates now ∷ es) s =
      let (d, events, limiter) = run es s in
      evaluate_windows floats strings describe stamp now d events limiter

  -- What holds of the detector after the steps.
  pub record Holds (es : List Step) (d : AnomalyDetector F) : Type 0 where
    pub enabled : d.enabled ≡ true
    pub map : IsMap d.ip_stats
    pub counts : (ip : String) → ip ≢ "" → total (lookup ip d.ip_stats) ≡ counted ip es
    pub window : length d.anomalies ≤ 100

  total-count_request :
      (now : ℕ) (o : Option (IpStats F))
      → (count_request floats (stats_or floats (new_stats floats now) o)).total_requests
        ≡ suc (total o)
  unfolding new_stats
  total-count_request now none = refl
  total-count_request now (some st) = omega arith

  total-insert :
      (ip key : String) (x : IpStats F) (entries : Dict (IpStats F))
      → total (lookup ip (insert key x entries))
        ≡ (if str_eq key ip then x.total_requests else total (lookup ip entries))
  total-insert ip key x entries = rw (lookup-insert key ip x entries) (ground arith)

  other : (key ip : String) → str_eq key "" ≡ true → ip ≢ "" → str_eq key ip ≡ false
  other key ip empty ne = ground (arith, str_eq_iff key "", str_eq_iff key ip)

  counted_more :
      (key ip : String) (now : ℕ) (es : List Step) (d : AnomalyDetector F)
      → Holds es d
      → ip ≢ ""
      → (if str_eq key ip
          then (count_request floats
              (stats_or floats (new_stats floats now) (lookup key d.ip_stats))).total_requests
          else total (lookup ip d.ip_stats))
        ≡ counted ip (requests key now ∷ es)
  counted_more key ip now es d h ne = elim (Bool-cases (str_eq key ip)) [
    | inl same ↦ rw same (
        total-count_request now (lookup key d.ip_stats)
        ∙ ap suc
            (ap (λ k. total (lookup k d.ip_stats)) ((str_eq_iff key ip).0 same) ∙ h.counts ip ne))
    | inr other_ip ↦ rw other_ip (h.counts ip ne)
  ]

  skips :
      (d : AnomalyDetector F) (key : String)
      → d.enabled ≡ true
      → (not d.enabled || str_eq key "") ≡ str_eq key ""
  skips d key on = ground arith

  record_request-Holds :
      (key : String) (now : ℕ) (es : List Step) (d : AnomalyDetector F)
      → Holds es d
      → Holds (requests key now ∷ es) (record_request floats key now d)
  unfolding record_request
  record_request-Holds key now es d h = elim (Bool-cases (str_eq key "")) [
    | inl empty ↦ rw (skips d key h.enabled ∙ empty) (record {
      enabled = h.enabled;
      map = h.map;
      counts = λ ip ne. h.counts ip ne ∙ rw (other key ip empty ne) refl;
      window = h.window;
    })
    | inr named ↦ rw (skips d key h.enabled ∙ named) (record {
      enabled = h.enabled;
      map = insert-IsMap key _ d.ip_stats h.map;
      counts = λ ip ne. total-insert ip key _ d.ip_stats ∙ counted_more key ip now es d h ne;
      window = h.window;
    })
  ]

  evaluate_windows-Holds :
      (now : ℕ) (es : List Step) (d : AnomalyDetector F) (events : List Event)
      (limiter : RateLimiter)
      → Holds es d
      → Holds
          (evaluates now ∷ es)
          (evaluate_windows floats strings describe stamp now d events limiter).0
  unfolding evaluate_windows
  evaluate_windows-Holds now es d events limiter h = record {
    enabled = h.enabled;
    map = evaluate_entries-IsMap d now d.ip_stats _ h.map;
    counts = λ ip ne. total-evaluate_entries d now ip d.ip_stats _ ∙ h.counts ip ne;
    window = length-evaluate_entries-le d now d.ip_stats _ h.window;
  }

  run-Holds :
      (es : List Step) (d : AnomalyDetector F) (events : List Event) (limiter : RateLimiter)
      → Holds [] d
      → Holds es (run es (d, events, limiter)).0
  unfolding run
  run-Holds [] d events limiter h = h
  run-Holds (requests key now ∷ es) d events limiter h =
      record_request-Holds key now es _ (run-Holds es d events limiter h)
  run-Holds (evaluates now ∷ es) d events limiter h =
      evaluate_windows-Holds now es _ _ _ (run-Holds es d events limiter h)

  -- From a detector that is on and knows nothing, after any requests and evaluations, the total of every
  -- address is the number of its requests, no address has two entries, and the list of anomalies has at
  -- most a hundred.
  pub run-totals :
      (es : List Step) (d : AnomalyDetector F) (events : List Event) (limiter : RateLimiter)
      → d.enabled ≡ true
      → d.ip_stats ≡ []
      → d.anomalies ≡ []
      → ((ip : String)
          → ip ≢ ""
          → total (lookup ip (run es (d, events, limiter)).0.ip_stats) ≡ counted ip es)
        × IsMap (run es (d, events, limiter)).0.ip_stats
        × (length (run es (d, events, limiter)).0.anomalies ≤ 100)
  run-totals es d events limiter on no_stats no_anomalies =
      let start : Holds [] d = record {
        enabled = on;
        map = subst IsMap (sym no_stats) tt;
        counts = λ ip ne. ap (λ m. total (lookup ip m)) no_stats ∙ unfold lookup in refl;
        window = subst (λ xs. length xs ≤ 100) (sym no_anomalies) (omega arith);
      } in
      let h = run-Holds es d events limiter start in (h.counts, h.map, h.window)
