-- ===== src/Observability/Correlation.antt =====
-- One identifier for the client, the log and the backend (src/middleware/correlationId.js,
-- src/observability/logger.js, src/proxy/proxyUtils.js).
use sentinel_adc.Base.{
  ◌≡◌, ◌≢◌, refl, String, Option, none, some, Dict, lookup, arith, lookup-insert_self, str_eq,
  str_eq_iff, Bool-cases, inl, inr, false,
}
use sentinel_adc.Http.{
  Request, Strings, header, or, get_or, truthy, correlation_id, add_proxy_headers,
}
use sentinel_adc.Http.Forwarding.{correlation-add_proxy_headers}
use sentinel_adc.Observability.{Info, correlation_middleware, correlation_format}

truthy-nonempty : (o : Option String) (s : String) → truthy o ≡ some s → s ≢ ""
truthy-nonempty none s h = cc
truthy-nonempty (some t) s h = λ p. ground (arith, str_eq_iff t "")

or-nonempty : (a b : Option String) (s : String) → or a b ≡ some s → s ≢ ""
or-nonempty none b s h = truthy-nonempty b s h
or-nonempty (some t) b s h = elim (Bool-cases (str_eq t "")) [
  | inl e ↦ truthy-nonempty b s (rw (or, e) at h)
  | inr e ↦ λ p. ground (arith, str_eq_iff t "")
]

get_or-nonempty :
    (o : Option String) (d : String)
    → ((s : String) → o ≡ some s → s ≢ "")
    → d ≢ ""
    → get_or o d ≢ ""
get_or-nonempty none d some_ne h = h
get_or-nonempty (some s) d some_ne h = some_ne s refl

-- An identifier that the middleware has chosen is not empty.
correlation_id-nonempty :
    (fresh : String) (req : Request) → fresh ≢ "" → correlation_id fresh req ≢ ""
unfolding correlation_id
correlation_id-nonempty fresh req h =
    get_or-nonempty
      (or (header "x-correlation-id" req)
        (or (header "x-request-id" req) (header "x-request-id" req)))
      fresh
      (or-nonempty (header "x-correlation-id" req)
        (or (header "x-request-id" req) (header "x-request-id" req)))
      h

truthy_ne : (s : String) → s ≢ "" → str_eq s "" ≡ false
truthy_ne s h = ground (arith, str_eq_iff s "")

correlation_format-some :
    (id : String) (info : Info)
    → str_eq id "" ≡ false
    → (correlation_format (some id) info).correlation_id ≡ some id
unfolding correlation_format
correlation_format-some id info h = ground arith

-- A request with or without an identifier of its own: the client gets the same identifier in its answer
-- that every entry of the log below the middleware has and that the backend gets from the proxy, if a new
-- identifier is not empty.
pub identifier_shared :
    (fresh : String) (strings : Strings) (req : Request) (headers out : Dict String)
    (request_id : Option String) (info : Info)
    → fresh ≢ ""
    → let c =
        correlation_middleware fresh req headers (λ context. correlation_format context info) in
      (lookup "x-correlation-id" c.headers ≡ some c.request_id)
      × (c.result.correlation_id ≡ some c.request_id)
      × (lookup "x-correlation-id"
            (add_proxy_headers strings request_id (some c.request_id) req out)
          ≡ some c.request_id)
unfolding correlation_middleware
identifier_shared fresh strings req headers out request_id info h =
    let ne = truthy_ne _ (correlation_id-nonempty fresh req h) in
    (
      lookup-insert_self "x-correlation-id" _ headers,
      correlation_format-some _ info ne,
      correlation-add_proxy_headers strings request_id _ req out ne,
    )
