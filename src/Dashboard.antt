-- ===== src/Dashboard.antt =====
-- The console of the administrator (dashboard/src/App.tsx): its state, the calls of the API that its handlers
-- make, and what they do with the answers. The figures that it shows and their layout are left out. `time`
-- is the time that a line of its log shows, `trim` the method of strings.
pub mod Calls
use Prim.Native.String.{◌++◌ as str_append}
use sentinel_adc.Base.{
  Bool, true, false, not, ◌&&◌, String, Option, none, some, List, [], ◌∷◌, ◌++◌, Dict, map, filter,
  str_eq, if◌then◌else◌,
}
use sentinel_adc.Api.Table.{Method, get, post, put, delete}

pub data Level : Type 0 where
  info warn error debug : Level

pub record Server : Type 0 where
  pub id : String
  pub healthy : Bool
  pub override_status : Option String

-- `storage` is the key `sentinel_jwt` of the local storage; `mock` is `enableMockFallback.current`.
pub record Dashboard : Type 0 where
  pub token : Option String
  pub storage : Option String
  pub username : String
  pub password : String
  pub login_error : String
  pub online : Bool
  pub mock : Bool
  pub algorithm : String
  pub backends : List Server
  pub blocked_ips : List String
  pub target_block_ip : String
  pub invalidate_pattern : String
  pub custom_logs : List String

-- A request: its method, the segments of its path, the fields of its body, and the token that it carries.
pub record Call : Type 0 where
  pub method : Method
  pub path : List String
  pub body : Dict String
  pub token : Option String

-- `fetch` throws with a message, the status is no success, or the answer has this content.
pub data Answer {ℓ} (A : Type ℓ) : Type ℓ where
  unreachable : String → Answer A
  refused : Answer A
  accepted : A → Answer A

-- What is loaded again after a change.
pub data Refresh : Type 0 where
  gateway telemetry : Refresh

abbrev text : List String → String
text [] = ""
text (s ∷ ss) = str_append s (text ss)

abbrev level_name : Level → String
level_name info = "info"
level_name warn = "warn"
level_name error = "error"
level_name debug = "debug"

-- `addLogLine` at this time.
unfoldable pub add_log_line : String → String → Level → Dashboard → Dashboard
add_log_line time line level d = record d {
  custom_logs =
      d.custom_logs ++ text ("[" ∷ time ∷ "] " ∷ line ∷ "::" ∷ level_name level ∷ []) ∷ [];
}

-- The demonstration data, of which the servers and the addresses are kept here.
load_mock_data : Dashboard → Dashboard
load_mock_data d = record d {
  algorithm = "weighted-round-robin";
  backends =
      record { id = "backend-1"; healthy = true; override_status = none }
      ∷ record { id = "backend-2"; healthy = true; override_status = none }
      ∷ record { id = "backend-3"; healthy = false; override_status = none }
      ∷ [];
  blocked_ips = "192.168.1.105" ∷ "45.227.254.12" ∷ [];
}

-- `refreshGatewayData`, by the two fields of the answer.
unfoldable pub refresh_gateway_data : Answer (String × List Server) → Dashboard → Dashboard
unfolding load_mock_data
refresh_gateway_data (accepted (algorithm, backends)) d = record d {
  online = true;
  algorithm = algorithm;
  backends = backends;
  mock = false;
}
refresh_gateway_data refused d = d
refresh_gateway_data (unreachable message) d =
    let d' = record d { online = false } in if d.mock then load_mock_data d' else d'

module _ (time : String) (trim : String → String) where
  logs : List String → Level → Dashboard → Dashboard
  unfolding add_log_line
  logs line level d = add_log_line time (text line) level d

  signed_in : String → Dashboard → Dashboard
  signed_in token d = record d { token = some token; storage = some token }

  -- `handleLogin`, with the token of an answer that is a success.
  unfoldable pub handle_login : (Call → Answer String) → Dashboard → Dashboard
  unfolding logs signed_in
  handle_login api d =
      let call : Call = record {
        method = post;
        path = "api" ∷ "security" ∷ "login" ∷ [];
        body = ("username", d.username) ∷ ("password", d.password) ∷ [];
        token = none;
      } in
      let start = record d { login_error = "" } in
      elim (api call) [
        | accepted token ↦
            logs ("[Auth] Authentication successful. Admin Bearer Token issued." ∷ []) info
              (signed_in token start)
        | refused ↦ record start {
          login_error = "Invalid username or password. (Hint: admin / sentinel)";
        }
        | unreachable message ↦
            if str_eq d.username "admin" && str_eq d.password "sentinel"
            then logs ("[Auth] Gateway offline. Mock offline administrative session started." ∷ [])
                warn (signed_in "mock_jwt_token_for_offline_demo" start)
            else record start {
              login_error =
                  "Could not reach gateway server. Ensure gateway is running on port 3000.";
            }
      ]

  -- `handleLogout`.
  unfoldable pub handle_logout : Dashboard → Dashboard
  unfolding logs
  handle_logout d =
      logs ("[Auth] Logged out. Administrative session terminated." ∷ []) info
        (record d { token = none; storage = none })

  -- `apiFetch` adds the token of the session.
  abbrev call_of : Method → List String → Dict String → Dashboard → Call
  call_of method path body d = record { method = method; path = path; body = body; token = d.token }

  -- `handleAlgorithmChange`.
  unfoldable pub handle_algorithm_change :
      (Call → Answer (Unit {0})) → String → Dashboard → Dashboard × List Refresh
  unfolding logs
  handle_algorithm_change api name d =
      let start =
        logs ("[Gateway] Dispatching dynamic algorithm transition to: " ∷ name ∷ []) info
          (record d { algorithm = name }) in
      let call = call_of put ("api" ∷ "admin" ∷ "algorithm" ∷ []) (("algorithm", name) ∷ []) d in
      let answered : Dashboard × List Refresh = elim (api call) [
        | accepted _ ↦ (
          logs ("[Gateway] Successfully configured routing load balancer mode to: " ∷ name ∷ [])
              info start,
          gateway ∷ [],
        )
        | refused ↦ (
          logs ("[Gateway] Fails to reconfigure load balancer. Check credentials." ∷ []) error
              start,
          [],
        )
        | unreachable message ↦ (
          logs ("[Gateway] HTTP network failure updating algorithm: " ∷ message ∷ []) error start,
          [],
        )
      ] in
      if not d.online
      then (
        logs ("[Gateway] Offline mode active. Algorithm status updated locally." ∷ []) warn start,
        [],
      )
      else answered

  forced : Option String → Bool → Bool
  forced none old = old
  forced (some s) old =
      if str_eq s "healthy" then true else if str_eq s "unhealthy" then false else old

  -- The offline branch of the override.
  unfoldable pub override_locally : String → Option String → Server → Server
  unfolding forced
  override_locally id status s =
      if str_eq s.id id
      then record s { healthy = forced status s.healthy; override_status = status }
      else s

  abbrev or_default : Option String → String
  or_default none = "default"
  or_default (some s) = if str_eq s "" then "default" else s

  -- `JSON.stringify` keeps a null, which is left out of the body here.
  abbrev override_body : String → Option String → Dict String
  override_body id none = ("backendId", id) ∷ []
  override_body id (some s) = ("backendId", id) ∷ ("status", s) ∷ []

  -- `handleNodeOverride`.
  unfoldable pub handle_node_override :
      (Call → Answer (Unit {0})) → String → Option String → Dashboard → Dashboard × List Refresh
  unfolding logs override_locally
  handle_node_override api id status d =
      let start =
        logs
          ("[Pools] Dispatching server status override for " ∷ id ∷ " to " ∷ or_default status ∷ [])
          info d in
      let call = call_of post ("api" ∷ "health" ∷ "override" ∷ []) (override_body id status) d in
      let answered : Dashboard × List Refresh = elim (api call) [
        | accepted _ ↦ (
          logs ("[Pools] Node status override confirmed for " ∷ id ∷ []) info start,
          gateway ∷ [],
        )
        | refused ↦ (
          logs ("[Pools] Override forbidden. Ensure valid admin auth header present." ∷ []) error
              start,
          [],
        )
        | unreachable message ↦
            (logs ("[Pools] Node override failed: " ∷ message ∷ []) error start, [])
      ] in
      if not d.online
      then (record start { backends = map (override_locally id status) start.backends }, [])
      else answered

  -- `handleBlockIp`.
  unfoldable pub handle_block_ip : (Call → Answer (Unit {0})) → Dashboard → Dashboard × List Refresh
  unfolding logs
  handle_block_ip api d =
      let ip = trim d.target_block_ip in
      let start =
        logs ("[Firewall] Instructing gateway to block client IP address: " ∷ ip ∷ []) warn d in
      let call = call_of post ("api" ∷ "security" ∷ "blocklist" ∷ []) (("ip", ip) ∷ []) d in
      let answered : Dashboard × List Refresh = elim (api call) [
        | accepted _ ↦ (
          record (logs ("[Firewall] Blocklisted IP address successfully: " ∷ ip ∷ []) info start) {
            target_block_ip = "";
          },
          telemetry ∷ [],
        )
        | refused ↦
            (logs ("[Firewall] Could not update firewall rules blocklist." ∷ []) error start, [])
        | unreachable message ↦
            (logs ("[Firewall] Blocklist failed: " ∷ message ∷ []) error start, [])
      ] in
      if str_eq ip ""
      then (d, [])
      else if not d.online
      then (record start { blocked_ips = start.blocked_ips ++ ip ∷ []; target_block_ip = "" }, [])
      else answered

  -- `handleUnblockIp`.
  unfoldable pub handle_unblock_ip :
      (Call → Answer (Unit {0})) → String → Dashboard → Dashboard × List Refresh
  unfolding logs filter
  handle_unblock_ip api ip d =
      let start = logs ("[Firewall] Instructing gateway to release client IP: " ∷ ip ∷ []) info d in
      let call = call_of delete ("api" ∷ "security" ∷ "blocklist" ∷ []) (("ip", ip) ∷ []) d in
      let answered : Dashboard × List Refresh = elim (api call) [
        | accepted _ ↦ (
          logs ("[Firewall] IP address released from blocklist: " ∷ ip ∷ []) info start,
          telemetry ∷ [],
        )
        | refused ↦ (start, [])
        | unreachable message ↦
            (logs ("[Firewall] Unblocklist failed: " ∷ message ∷ []) error start, [])
      ] in
      if not d.online
      then (record start { blocked_ips = filter (λ x. not (str_eq x ip)) start.blocked_ips }, [])
      else answered

  -- `handleClearCache`.
  unfoldable pub handle_clear_cache :
      (Call → Answer (Unit {0})) → Dashboard → Dashboard × List Refresh
  unfolding logs
  handle_clear_cache api d =
      let start = logs ("[Cache] Dispatching full cache database FLUSH request" ∷ []) warn d in
      let call = call_of post ("api" ∷ "cache" ∷ "clear" ∷ []) [] d in
      let answered : Dashboard × List Refresh = elim (api call) [
        | accepted _ ↦
            (logs ("[Cache] Cache storage engine cleared successfully." ∷ []) info start, [])
        | refused ↦ (start, [])
        | unreachable message ↦
            (logs ("[Cache] Cache clear failed: " ∷ message ∷ []) error start, [])
      ] in
      if not d.online
      then (logs ("[Cache] Local database cleared successfully." ∷ []) info start, [])
      else answered

  -- `handleInvalidateCache`.
  unfoldable pub handle_invalidate_cache :
      (Call → Answer (Unit {0})) → Dashboard → Dashboard × List Refresh
  unfolding logs
  handle_invalidate_cache api d =
      let pattern = trim d.invalidate_pattern in
      let start = logs ("[Cache] Invaliding pattern: " ∷ pattern ∷ []) info d in
      let call = call_of post ("api" ∷ "cache" ∷ "invalidate" ∷ []) (("pattern", pattern) ∷ []) d in
      let answered : Dashboard × List Refresh = elim (api call) [
        | accepted _ ↦ (
          record (logs ("[Cache] Invalidated keys matching: " ∷ pattern ∷ []) info start) {
            invalidate_pattern = "";
          },
          [],
        )
        | refused ↦ (start, [])
        | unreachable message ↦
            (logs ("[Cache] Invalidation failed: " ∷ message ∷ []) error start, [])
      ] in
      if str_eq pattern ""
      then (d, [])
      else if not d.online
      then (record start { invalidate_pattern = "" }, [])
      else answered

-- The lines that the log shows, for the text in its filter: the content and the level, which are the first
-- two pieces of a line. `includes`, `lower` and `split` are methods of strings.
two_pieces : List String → String × String
two_pieces [] = ("", "info")
two_pieces (content ∷ []) = (content, "info")
two_pieces (content ∷ level ∷ rest) = (content, if str_eq level "" then "info" else level)

unfoldable pub shown :
    (String → String → Bool)
    → (String → String)
    → (String → String → List String)
    → String
    → List String
    → List (String × String)
unfolding filter two_pieces
shown includes lower split query lines =
    let kept =
      if str_eq query "" then lines else filter (λ l. includes (lower l) (lower query)) lines in
    map (λ l. two_pieces (split l "::")) kept
