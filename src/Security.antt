-- ===== src/Security.antt =====
-- The security log (src/security/securityLogger.js) and the first filters of a request: the blocklist
-- of addresses (src/security/ipBlocklist.js), the check of headers (src/security/headerValidator.js)
-- and the check of tokens (src/security/jwtMiddleware.js). Arguments are the test of a regular
-- expression, the verification of a token, and the identifier and the time of an event.
pub mod Log
pub mod Blocking
pub mod Waf
pub mod Gate
pub mod Tokens
pub mod Anomaly
use Prim.Native.String.{◌++◌ as str_append}
use text.Mathlib.Text.{starts_with}
use sentinel_adc.Base.{
  ℕ, Bool, true, false, not, ◌&&◌, ◌||◌, String, Option, none, some, List, [], ◌∷◌, Dict, lookup,
  insert, str_eq, ltb, length, take, drop, get_elem?, ◌-◌, if◌then◌else◌,
}
use sentinel_adc.Http.{Request, Strings, get_client_ip, header, truthy, get_or}

-- The identifier and the time that an event is given.
pub record Stamp : Type 0 where
  pub id : String
  pub timestamp : String

pub record Event : Type 0 where
  pub stamp : Stamp
  pub kind : String
  pub ip : String
  pub path : String
  pub method : String
  pub user_agent : String
  pub details : Dict String

abbrev pub limit : ℕ
limit = 100

-- `unshift`, then `pop` if the list is longer than the limit.
unfoldable pub log_event :
    Strings → Stamp → String → Request → Dict String → List Event → List Event
log_event strings stamp kind req details events =
    let event : Event = record {
      stamp = stamp;
      kind = kind;
      ip = get_client_ip strings req;
      path = req.original_url;
      method = req.method;
      user_agent = get_or (truthy (header "user-agent" req)) "unknown";
      details = details;
    } in
    let events' = event ∷ events in
    if ltb limit (length events') then take (length events' - 1) events' else events'

abbrev pub get_events : List Event → List Event
get_events events = events

abbrev pub clear_logs : List Event → List Event
clear_logs events = []

-- A handler lets the request go on, or answers with this status and message, and leaves this log.
pub data Verdict : Type 0 where
  passes : Verdict
  answers : ℕ → String → Verdict

-- The set of addresses, in the order of insertion.
unfoldable pub has : String → List String → Bool
has ip [] = false
has ip (x ∷ xs) = str_eq x ip || has ip xs

unfoldable pub block : String → List String → List String
block ip [] = ip ∷ []
block ip (x ∷ xs) = if str_eq x ip then x ∷ xs else x ∷ block ip xs

-- `delete` also tells whether the address was there.
unfoldable pub unblock : String → List String → Bool × List String
unblock ip [] = (false, [])
unblock ip (x ∷ xs) =
    let (found, rest) = unblock ip xs in if str_eq x ip then (true, xs) else (found, x ∷ rest)

abbrev pub is_blocked : String → List String → Bool
is_blocked ip blocked = has ip blocked

abbrev pub get_blocked_list : List String → List String
get_blocked_list blocked = blocked

-- A regular expression: its source and whether it ignores the case.
pub record Regex : Type 0 where
  pub source : String
  pub ignore_case : Bool

abbrev pub ignoring_case : String → Regex
ignoring_case source = record { source = source; ignore_case = true }

abbrev pub scanners : List Regex
scanners =
    ignoring_case "nikto"
    ∷ ignoring_case "sqlmap"
    ∷ ignoring_case "nmap"
    ∷ ignoring_case "acunetix"
    ∷ ignoring_case "w3af"
    ∷ []

-- The first expression of a list that a text matches.
unfoldable pub first_match : (Regex → String → Bool) → List Regex → String → Option Regex
first_match test [] s = none
first_match test (r ∷ rs) s = if test r s then some r else first_match test rs s

module _ (strings : Strings) (test : Regex → String → Bool) (stamp : Stamp) where
  -- The middleware of the blocklist.
  unfoldable pub check_blocked : List String → Request → List Event → Verdict × List Event
  unfolding has
  check_blocked blocked req events =
      if is_blocked (get_client_ip strings req) blocked
      then (
        answers 403 "Access Forbidden — client IP has been blocked by administrator",
        log_event strings stamp "ip-blocked" req
            (("reason", "Client IP is present in the firewall blocklist") ∷ []) events,
      )
      else (passes, events)

  scanned : Request → String → Option Regex → List Event → Verdict × List Event
  scanned req agent none events = (passes, events)
  scanned req agent (some r) events = (
    answers 403 "Forbidden — scanner signature detected",
    log_event strings stamp "scanner-detected" req
        (("reason", str_append "Malicious scanner User-Agent detected: \"" (str_append agent "\""))
          ∷ ("match", r.source)
          ∷ [])
        events,
  )

  agent_checked : Request → Option String → List Event → Verdict × List Event
  unfolding scanned first_match
  agent_checked req none events = (passes, events)
  agent_checked req (some agent) events = scanned req agent (first_match test scanners agent) events

  host_checked : Request → Option String → List Event → Verdict × List Event
  unfolding agent_checked
  host_checked req none events = (
    answers 400 "Bad Request — Missing Host header",
    log_event strings stamp "header-invalid" req
        (("reason", "Request missing mandatory HTTP Host header") ∷ []) events,
  )
  host_checked req (some host) events = agent_checked req (truthy (header "user-agent" req)) events

  -- `headerValidator`.
  unfoldable pub validate_headers : Request → List Event → Verdict × List Event
  unfolding host_checked
  validate_headers req events = host_checked req (truthy (header "host" req)) events

-- The verification of a token: who it is for, or the message of the error.
pub data Verified : Type 0 where
  user : String → Verified
  invalid : String → Verified

-- A token that `split` does not find is `undefined`.
module _ (strings : Strings) (verify : Option String → Verified) (stamp : Stamp) where
  token_checked : Request → Verified → List Event → Verdict × Option String × List Event
  token_checked req (user u) events = (passes, some u, events)
  token_checked req (invalid message) events = (
    answers 401 (str_append "Unauthorized — Invalid or expired token: " message),
    none,
    log_event strings stamp "unauthorized-jwt" req
        (("reason", str_append "JWT verification failed: " message) ∷ ("error", message) ∷ [])
        events,
  )

  bearer_checked : Request → Option String → List Event → Verdict × Option String × List Event
  unfolding token_checked
  bearer_checked req auth events =
      let text = get_or auth "" in
      if starts_with text "Bearer "
      then token_checked req (verify (get_elem? (strings.split text " ") 1)) events
      else (
        answers 401 "Unauthorized — Missing or malformed Authorization token",
        none,
        log_event strings stamp "unauthorized-jwt" req
            (("reason", "Missing or malformed Authorization Bearer header") ∷ []) events,
      )

  -- `jwtMiddleware`: the verdict, `req.user` and the log.
  unfoldable pub check_token : Request → List Event → Verdict × Option String × List Event
  unfolding bearer_checked
  check_token req events = bearer_checked req (truthy (header "authorization" req)) events
