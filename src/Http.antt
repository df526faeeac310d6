-- ===== src/Http.antt =====
-- What the handlers read of a request, the client's address (src/utils/helpers.js), and the handlers
-- that read or set headers (src/middleware, src/proxy/proxyUtils.js). The string methods `split` and
-- `trim` of the language are arguments.
pub mod Forwarding
use Prim.Native.String.{◌++◌ as str_append}
use sentinel_adc.Base.{
  ℕ, Bool, true, false, not, ◌&&◌, ◌||◌, String, Option, none, some, List, [], ◌∷◌, Dict, lookup,
  insert, str_eq, ◌==◌, leb, if◌then◌else◌,
}

-- A parsed query or body; `scalar` is a number, a Boolean, null or undefined.
mutual
  pub data Payload : Type 0 where
    text : String → Payload
    array : Items → Payload
    object : Fields → Payload
    scalar : Payload

  pub data Items : Type 0 where
    no_items : Items
    item : Payload → Items → Items

  pub data Fields : Type 0 where
    no_fields : Fields
    field : String → Payload → Fields → Fields

-- A body that is falsy is `none`; `headers` are those of the request, with names in lower case.
pub record Request : Type 0 where
  pub method : String
  pub original_url : String
  pub url : String
  pub path : String
  pub protocol : String
  pub secure : Bool
  pub headers : Dict String
  pub remote_address : Option String
  pub ip : Option String
  pub query : Payload
  pub body : Option Payload

-- The methods of strings: the pieces between the separators, and the text without the blanks around it.
pub record Strings : Type 0 where
  pub split : String → String → List String
  pub trim : String → String

-- A missing or empty text is falsy; `or` is `||`.
abbrev pub truthy : Option String → Option String
truthy none = none
truthy (some s) = if str_eq s "" then none else some s

abbrev pub or : Option String → Option String → Option String
or none b = truthy b
or (some s) b = if str_eq s "" then truthy b else some s

abbrev pub get_or : Option String → String → String
get_or none d = d
get_or (some s) d = s

abbrev pub header : String → Request → Option String
header name req = lookup name req.headers

unfoldable pub first_hop : Strings → List String → String
first_hop strings [] = ""
first_hop strings (hop ∷ hops) = strings.trim hop

unfoldable pub client_ip : Strings → Option String → Request → String
unfolding first_hop
client_ip strings none req = get_or (or req.remote_address req.ip) "0.0.0.0"
client_ip strings (some forwarded) req = first_hop strings (strings.split forwarded ",")

unfoldable pub get_client_ip : Strings → Request → String
unfolding client_ip
get_client_ip strings req = client_ip strings (truthy (header "x-forwarded-for" req)) req

set_if : String → Option String → Dict String → Dict String
set_if name none out = out
set_if name (some v) out = insert name v out

abbrev pub append_hop : Option String → String → String
append_hop none ip = ip
append_hop (some chain) ip = str_append (str_append chain ", ") ip

-- `addProxyHeaders`: the two identifiers are those that earlier handlers have set on the request, and
-- the headers of the outgoing request have their names in lower case, as they are compared.
unfoldable pub add_proxy_headers :
    Strings → Option String → Option String → Request → Dict String → Dict String
unfolding set_if
add_proxy_headers strings request_id correlation_id req out =
    let ip = get_client_ip strings req in
    let forwarded = append_hop (truthy (header "x-forwarded-for" req)) ip in
    let out' = insert "x-forwarded-host" (get_or (truthy (header "host" req)) "") (
      insert "x-forwarded-proto" req.protocol
        (insert "x-real-ip" ip (insert "x-forwarded-for" forwarded out))) in
    set_if "x-correlation-id" (or correlation_id (header "x-correlation-id" req))
      (set_if "x-request-id" (or request_id (header "x-request-id" req)) out')

-- `addResponseHeaders`: the backend, the algorithm and the reason that the router has noted.
unfoldable pub add_response_headers :
    Option String → Option String → Option String → Dict String → Dict String
unfolding set_if
add_response_headers backend_id algorithm reason out =
    set_if "x-lb-reason" (truthy reason)
      (set_if "x-lb-algorithm" (truthy algorithm) (set_if "x-backend-id" (truthy backend_id) out))

-- The correlation identifier of a request, by a new one for a request without.
unfoldable pub correlation_id : String → Request → String
correlation_id fresh req =
    get_or
      (or (header "x-correlation-id" req)
        (or (header "x-request-id" req) (header "x-request-id" req)))
      fresh

pub record Tls : Type 0 where
  pub enabled : Bool
  pub redirect : Bool
  pub port : ℕ

head_or : String → List String → String
head_or d [] = d
head_or d (x ∷ xs) = x

host_name : Strings → Option String → String
unfolding head_or
host_name strings none = "localhost"
host_name strings (some host) = head_or "" (strings.split host ":")

-- `tlsRedirect`: the target of the redirection, or none for the next handler; `show` prints a number.
unfoldable pub tls_redirect : Strings → (ℕ → String) → Tls → Request → Option String
unfolding host_name
tls_redirect strings show tls req =
    let port = if tls.port == 443 then "" else str_append ":" (show tls.port) in
    if not tls.enabled || not tls.redirect
    then none
    else if not req.secure && str_eq req.protocol "http"
    then some (
        str_append "https://"
          (str_append (host_name strings (truthy (header "host" req))) (str_append port req.url)))
    else none

pub record Failure : Type 0 where
  pub status_code : Option ℕ
  pub status : Option ℕ
  pub message : String
  pub stack : String

pub record ErrorReply : Type 0 where
  pub status_code : ℕ
  pub message : String
  pub request_id : String
  pub stack : Option String

-- A missing number or 0 is falsy.
abbrev pub nonzero_or : Option ℕ → ℕ → ℕ
nonzero_or none d = d
nonzero_or (some n) d = if n == 0 then d else n

-- `errorHandler`, without the log entry and the time in the answer.
unfoldable pub error_handler : Bool → Failure → Request → ErrorReply
error_handler development err req =
    let code = nonzero_or err.status_code (nonzero_or err.status 500) in
    record {
      status_code = code;
      message = if leb 500 code then "Internal Server Error" else err.message;
      request_id = get_or (truthy (header "x-request-id" req)) "unknown";
      stack = if development then some err.stack else none;
    }
