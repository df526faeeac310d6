-- ===== src/Observability.antt =====
-- What is measured and written down of a request: src/observability/traceContext.js and logger.js,
-- src/middleware/correlationId.js, responseTimer.js and requestLogger.js. The context of an asynchronous
-- computation is an argument of what runs in it, `none` outside of every one. The libraries winston and
-- morgan put the pieces together; `stringify` is JSON, `show` prints a number.
pub mod Correlation
use Prim.Native.String.{◌++◌ as str_append}
use sentinel_adc.Base.{
  ℕ, ◌+◌, ◌-◌, ◌*◌, Bool, true, false, not, String, Option, none, some, List, [], ◌∷◌, ◌++◌, Dict,
  lookup, insert, str_eq, if◌then◌else◌,
}
use sentinel_adc.Http.{Request, Strings, header, truthy, get_or, correlation_id}
use sentinel_adc.Health.{round_div}

-- `traceContextStore` and `getCorrelationId`.
abbrev pub Context : Type 0
Context = Option String

unfoldable pub get_correlation_id : Context → Option String
get_correlation_id none = none
get_correlation_id (some id) = some id

-- `runWithContext`: the callback runs in the context with this identifier.
unfoldable pub run_with_context : {A : Type 0} → String → (Context → A) → A
run_with_context id callback = callback (some id)

-- What the correlation middleware leaves: the identifier on the request, the headers of the answer, and what
-- the next handlers do in their context.
pub record Correlated (A : Type 0) : Type 0 where
  pub request_id : String
  pub headers : Dict String
  pub result : A

unfoldable pub correlation_middleware :
    {A : Type 0} → String → Request → Dict String → (Context → A) → Correlated A
unfolding run_with_context
correlation_middleware fresh req headers next =
    let id = correlation_id fresh req in
    record {
      request_id = id;
      headers = insert "x-correlation-id" id headers;
      result = run_with_context id next;
    }

-- An entry of the log: its level, its text and the other fields.
pub record Info : Type 0 where
  pub timestamp : String
  pub level : String
  pub message : String
  pub stack : Option String
  pub correlation_id : Option String
  pub meta : Dict String

-- `correlationFormat`.
unfoldable pub correlation_format : Context → Info → Info
unfolding get_correlation_id
correlation_format context info = elim (truthy (get_correlation_id context)) [
  | none ↦ info
  | some id ↦ record info { correlation_id = some id }
]

abbrev pub prefixed : String → Option String → String
prefixed prefix none = ""
prefixed prefix (some s) = str_append prefix s

abbrev pub fields : (Dict String → String) → Dict String → String
fields stringify [] = ""
fields stringify (f ∷ fs) = str_append " " (stringify (f ∷ fs))

-- The line of `devFormat`, which `printf` makes.
unfoldable pub dev_line : (Dict String → String) → Info → String
dev_line stringify i = str_append i.timestamp (
    str_append " [" (
      str_append i.level (
        str_append "]" (
          str_append (prefixed " | trace:" (truthy i.correlation_id)) (
            str_append " — " (
              str_append i.message
                (str_append (fields stringify i.meta) (prefixed "\n" (truthy i.stack)))))))))

-- The transports: the console, and in production two files with their least level, their size in bytes and
-- their number.
pub data Transport : Type 0 where
  console : Transport
  file : String → Option String → ℕ → ℕ → Transport

unfoldable pub transports : Bool → List Transport
transports is_prod =
    console
    ∷ (if is_prod
        then file "logs/error.log" (some "error") (10 * 1024 * 1024) 5
          ∷ file "logs/combined.log" none (10 * 1024 * 1024) 10
          ∷ []
        else [])

-- The tokens of the request logger; the last one reads the headers of the answer.
abbrev pub request_id_token : Request → String
request_id_token req = get_or (truthy (header "x-request-id" req)) "-"

abbrev pub backend_token : Request → String
backend_token req = get_or (truthy (header "x-backend-id" req)) "-"

abbrev pub cache_token : Dict String → String
cache_token answer = get_or (truthy (lookup "x-cache" answer)) "-"

-- `stream.write`: morgan's line without its end, with its field.
unfoldable pub write : Strings → String → Info → Info
write strings line info = record info {
  level = "info";
  message = strings.trim line;
  meta = ("module", "http") ∷ [];
}

-- `elapsedMs`, in hundredths of a millisecond, from two readings of the clock in nanoseconds.
unfoldable pub elapsed_ms : ℕ → ℕ → ℕ
unfolding round_div
elapsed_ms start now = round_div (now - start) 10000

-- The response timer: `res.locals` gets the duration when the answer has finished, and `res.end` sets the
-- header unless the headers are out.
pub record Locals : Type 0 where
  pub start_time : ℕ
  pub response_time : Option ℕ

abbrev pub response_timer : ℕ → Locals
response_timer now = record { start_time = now; response_time = none }

unfoldable pub on_finish : ℕ → Locals → Locals
unfolding elapsed_ms
on_finish now l = record l { response_time = some (elapsed_ms l.start_time now) }

unfoldable pub end : (ℕ → String) → ℕ → Bool → Locals → Dict String → Dict String
unfolding elapsed_ms
end show now headers_sent l headers =
    if not headers_sent
    then insert "X-Response-Time" (str_append (show (elapsed_ms l.start_time now)) "ms") headers
    else headers
