-- ===== src/Security/Waf.antt =====
-- The web application firewall (src/security/wafMiddleware.js).
pub mod Scanning
use Prim.Native.String.{◌++◌ as str_append}
use sentinel_adc.Base.{
  ℕ, Bool, true, false, String, Option, none, some, List, [], ◌∷◌, Dict, if◌then◌else◌,
}
use sentinel_adc.Http.{
  Request, Strings, Payload, Items, Fields, text, array, object, scalar, no_items, item, no_fields,
  field,
}
use sentinel_adc.Security.{
  Event, Stamp, Regex, ignoring_case, Verdict, passes, answers, first_match, log_event,
}

abbrev pub sqli_patterns : List Regex
sqli_patterns =
    ignoring_case "\\bunion\\b.*\\bselect\\b"
    ∷ ignoring_case "\\bselect\\b.*\\bfrom\\b"
    ∷ ignoring_case "\\binsert\\b.*\\binto\\b"
    ∷ ignoring_case "\\bupdate\\b.*\\bset\\b"
    ∷ ignoring_case "\\bdelete\\b.*\\bfrom\\b"
    ∷ ignoring_case "\\bdrop\\b.*\\btable\\b"
    ∷ ignoring_case "exec\\s*\\("
    ∷ ignoring_case "cast\\s*\\(.*as"
    ∷ ignoring_case "convert\\s*\\("
    ∷ ignoring_case "char\\s*\\("
    ∷ record { source = "--\\s*$"; ignore_case = false }
    ∷ []

abbrev pub xss_patterns : List Regex
xss_patterns =
    ignoring_case "<script[^>]*>"
    ∷ ignoring_case "<\\/script>"
    ∷ ignoring_case "javascript:"
    ∷ ignoring_case "onerror\\s*="
    ∷ ignoring_case "onload\\s*="
    ∷ ignoring_case "onclick\\s*="
    ∷ ignoring_case "src\\s*=\\s*['\"]?javascript:"
    ∷ ignoring_case "eval\\s*\\("
    ∷ ignoring_case "expression\\s*\\("
    ∷ ignoring_case "<\\s*img\\s+[^>]*onerror"
    ∷ ignoring_case "<\\s*svg\\s+[^>]*onload"
    ∷ []

pub record Match : Type 0 where
  pub attack_type : String
  pub matched_pattern : String
  pub input_snippet : String

abbrev pub or_else {ℓ} : {A : Type ℓ} → Option A → Option A → Option A
or_else none b = b
or_else (some a) b = some a

matched : String → String → Option Regex → Option Match
matched attack s none = none
matched attack s (some r) =
    some (record { attack_type = attack; matched_pattern = r.source; input_snippet = s })

-- A text is tested against the patterns of one attack, then of the other.
unfoldable pub scan_text : (Regex → String → Bool) → String → Option Match
unfolding matched first_match
scan_text test s =
    or_else (matched "sqli" s (first_match test sqli_patterns s))
      (matched "xss" s (first_match test xss_patterns s))

-- `scanPayload`, with its loops over the items of an array and the entries of an object.
unfoldable mutual
  unfolding scan_text

  pub scan_payload : (Regex → String → Bool) → Payload → Option Match
  scan_payload test (text s) = scan_text test s
  scan_payload test (array xs) = scan_items test xs
  scan_payload test (object fs) = scan_fields test fs
  scan_payload test scalar = none

  pub scan_items : (Regex → String → Bool) → Items → Option Match
  scan_items test no_items = none
  scan_items test (item v vs) = or_else (scan_payload test v) (scan_items test vs)

  pub scan_fields : (Regex → String → Bool) → Fields → Option Match
  scan_fields test no_fields = none
  scan_fields test (field key v fs) =
      or_else (scan_text test key) (or_else (scan_payload test v) (scan_fields test fs))

-- `upper` is `toUpperCase`.
module _ (strings : Strings) (test : Regex → String → Bool) (upper : String → String)
    (stamp : Stamp) where
  blocked : String → String → Request → Match → List Event → Verdict × List Event
  blocked source place req m events = (
    answers 403 (
        str_append "Access Blocked — WAF detected a potential "
          (str_append (upper m.attack_type) (str_append " attempt in " place))),
    log_event strings stamp "waf-block" req
        (("source", source)
          ∷ ("attackType", m.attack_type)
          ∷ ("matchedPattern", m.matched_pattern)
          ∷ ("inputSnippet", m.input_snippet)
          ∷ [])
        events,
  )

  body_found : Request → Option Match → List Event → Verdict × List Event
  unfolding blocked
  body_found req (some m) events = blocked "request-body" "request payload" req m events
  body_found req none events = (passes, events)

  body_scanned : Request → Option Payload → List Event → Verdict × List Event
  unfolding body_found scan_payload
  body_scanned req none events = (passes, events)
  body_scanned req (some body) events = body_found req (scan_payload test body) events

  query_scanned : Request → Option Match → List Event → Verdict × List Event
  unfolding blocked body_scanned
  query_scanned req (some m) events = blocked "query-params" "query parameters" req m events
  query_scanned req none events = body_scanned req req.body events

  path_scanned : Request → Option Match → List Event → Verdict × List Event
  unfolding blocked query_scanned scan_payload
  path_scanned req (some m) events = blocked "uri-path" "the URI path" req m events
  path_scanned req none events = query_scanned req (scan_payload test req.query) events

  -- `wafMiddleware`: the path, then the query, then the body.
  unfoldable pub inspect : Request → List Event → Verdict × List Event
  unfolding path_scanned scan_text
  inspect req events = path_scanned req (scan_text test req.path) events
