-- ===== src/Api/Security.antt =====
-- The handlers of src/security/securityRoutes.js, and the check of the token that stands before them.
use Prim.Native.String.{◌++◌ as str_append}
use sentinel_adc.Base.{Bool, ◌&&◌, String, Option, none, some, List, str_eq, if◌then◌else◌}
use sentinel_adc.Http.{Request, Strings}
use sentinel_adc.Security.{
  Event, Stamp, Verdict, passes, answers, Verified, check_token, block, unblock, get_blocked_list,
  clear_logs, get_events,
}
use sentinel_adc.Security.Anomaly.{
  Floats, AnomalyDetector, Anomaly, Baseline, set_auto_enforce, set_z_threshold, get_anomalies,
  get_baselines, clear_anomalies,
}
use sentinel_adc.Api.{Served, sends, error, truthy_or}

-- `POST /api/security/login`; `sign` is the signed token.
unfoldable pub login : String → Option String → Option String → Served String
login sign (some username) (some password) =
    if str_eq username "admin" && str_eq password "sentinel"
    then sends sign
    else error 401 "Invalid credentials. Default: admin / sentinel"
login sign _ _ = error 401 "Invalid credentials. Default: admin / sentinel"

-- `router.use(jwtMiddleware())`: a handler over a state that runs only behind a token that passes.
unfoldable pub guarded {κ} :
    {A : Type 0} {W : Type κ}
    → (W → Served A × W)
    → W
    → Verdict × Option String × List Event
    → Served A × W × List Event
guarded handler w (passes, u, events) = let (a, w') = handler w in (a, w', events)
guarded handler w (answers code message, u, events) = (error code message, w, events)

unfoldable pub secured {κ} :
    {A : Type 0} {W : Type κ}
    → Strings
    → (Option String → Verified)
    → Stamp
    → (W → Served A × W)
    → Request
    → W
    → List Event
    → Served A × W × List Event
unfolding guarded
secured strings verify stamp handler req w events =
    guarded handler w (check_token strings verify stamp req events)

-- `GET` and `DELETE /api/security/events`.
abbrev pub list_events : List Event → Served (List Event) × List Event
list_events events = (sends (get_events events), events)

abbrev pub delete_events : List Event → Served (Unit {0}) × List Event
delete_events events = (sends tt, clear_logs events)

-- `GET`, `POST` and `DELETE /api/security/blocklist`.
abbrev pub list_blocked : List String → Served (List String) × List String
list_blocked blocked = (sends (get_blocked_list blocked), blocked)

unfoldable pub block_ip : Option String → List String → Served (List String) × List String
unfolding block
block_ip ip blocked =
    truthy_or ip (error 400 "Missing required body field: \"ip\"", blocked)
      (λ i. let blocked' = block i blocked in (sends (get_blocked_list blocked'), blocked'))

unfoldable pub unblock_ip : String → List String → Served (List String) × List String
unfolding unblock
unblock_ip ip blocked =
    let (existed, blocked') = unblock ip blocked in
    if existed then (sends (get_blocked_list blocked'), blocked') else (
      error 404 (str_append "IP address \"" (str_append ip "\" was not found in the blocklist")),
      blocked',
    )

module _ {F : Type 0} (floats : Floats F) where
  -- `GET /api/security/anomalies`: the list and the baselines.
  abbrev pub list_anomalies :
      AnomalyDetector F → Served (List (Anomaly F) × List (Baseline F)) × AnomalyDetector F
  list_anomalies d = (sends (get_anomalies floats d, get_baselines floats d), d)

  enforced : Option Bool → AnomalyDetector F → AnomalyDetector F
  enforced none d = d
  enforced (some b) d = set_auto_enforce floats b d

  thresholded : Option F → AnomalyDetector F → AnomalyDetector F
  unfolding set_z_threshold
  thresholded none d = d
  thresholded (some z) d = set_z_threshold floats (some z) d

  -- `POST /api/security/anomalies/config`; a field of another type is as if it were missing.
  unfoldable pub configure :
      Option Bool → Option F → AnomalyDetector F → Served (Bool × F × Bool) × AnomalyDetector F
  unfolding enforced thresholded
  configure auto_enforce z_threshold d =
      let d' = thresholded z_threshold (enforced auto_enforce d) in
      (sends (d'.enabled, d'.z_threshold, d'.auto_enforce), d')

  -- `DELETE /api/security/anomalies`.
  abbrev pub delete_anomalies : AnomalyDetector F → Served (Unit {0}) × AnomalyDetector F
  delete_anomalies d = (sends tt, clear_anomalies floats d)
