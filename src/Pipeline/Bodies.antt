-- ===== src/Pipeline/Bodies.antt =====
-- The body of a request, which the parsers make after the firewall has looked.
use sentinel_adc.Base.{ℕ, ◌≡◌, ◌∙◌, String, Bool, true, false, arith, Option, List}
use sentinel_adc.Http.{Request, Payload, Strings, Tls}
use sentinel_adc.Security.{Stamp, Regex}
use sentinel_adc.Security.Anomaly.{Floats}
use sentinel_adc.RateLimit as RateLimit
use sentinel_adc.Cache.{Json, is_active}
use sentinel_adc.Cache as Cache
use sentinel_adc.Cache.Requests.{bypass, arrive, is_cacheable}
use sentinel_adc.Pipeline.{World, Clock, Texts, Framework, parsed, serve, to_api, cache_request}
use sentinel_adc.Pipeline.Admission.{IsAdmitted}
use sentinel_adc.Pipeline.Serving.{lookup_of, IsAdmitted-fate}

module _ {F S : Type 0} (strings : Strings) (test : Regex → String → Bool) (upper : String → String)
    (stamp : Stamp) (show : ℕ → String) (texts : Texts) (express : Framework) (tls : Tls)
    (limits : RateLimit.Config) (floats : Floats F) (client : Cache.Redis S) (json : Json)
    (utf8 : List ℕ → String) (ttl : ℕ) where
  bypassed :
      (req : Request) (clock : Clock) (w : World F S)
      → is_cacheable (cache_request req) ≡ false
      → lookup_of strings test upper stamp show texts express tls limits floats client json utf8 ttl
          req clock w
        ≡ bypass
  unfolding arrive
  bypassed req clock w h = ground (arith, h)

  -- The body that the parsers make of an admitted request which the cache passes by reaches the route of
  -- the API that answers it, whatever that body is, even if a pattern of the firewall matches it.
  body_unscanned :
      (req : Request) (clock : Clock) (w : World F S) (body : Option Payload)
      → IsAdmitted strings test upper stamp show texts express tls limits floats client json utf8
          ttl req clock w
      → is_cacheable (cache_request req) ≡ false
      → express.parse req ≡ parsed body
      → express.routes (record req { body = body }) ≡ true
      → (serve strings test upper stamp show texts express tls limits floats client json utf8 ttl
          req clock w).0
        ≡ to_api (record req { body = body })
  body_unscanned req clock w body k uncached made answered =
      IsAdmitted-fate strings test upper stamp show texts express tls limits floats client json utf8
        ttl req clock w k
      ∙ rw (bypassed req clock w uncached, made, answered)
