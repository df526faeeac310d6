-- ===== src/Pipeline.antt =====
-- The way of a request through the handlers of src/app.js, up to the routes of the API and the proxy. What
-- Express, its body parsers and cors make of a request is a parameter. helmet, which only sets headers, and
-- the handlers that only measure and log are left out. A request arrives with no parsed body.
pub mod Admission
pub mod Bodies
pub mod Penalties
pub mod Serving
use text.Mathlib.Text.{starts_with}
use sentinel_adc.Base.{
  ℕ, Bool, true, false, String, Option, none, some, List, [], ◌∷◌, if◌then◌else◌,
}
use sentinel_adc.Http.{Request, Payload, Strings, Tls, get_client_ip, tls_redirect, header}
use sentinel_adc.Security.{
  Event, Stamp, Regex, Verdict, passes, answers, check_blocked, validate_headers, log_event,
}
use sentinel_adc.Security.Gate.{firewall}
use sentinel_adc.Security.Waf.{inspect}
use sentinel_adc.Security.Anomaly.{Floats, AnomalyDetector}
use sentinel_adc.Security.Anomaly as Anomaly
use sentinel_adc.RateLimit.{
  RateLimiter, Decision, passed, too_many_requests, inactive, failing, active,
}
use sentinel_adc.RateLimit as RateLimit
use sentinel_adc.Cache.{Cached, CacheService, Json}
use sentinel_adc.Cache as Cache
use sentinel_adc.Cache.Requests.{Lookup, bypass, miss, hit, arrive}
use sentinel_adc.Cache.Requests as Requests

-- The state of the handlers; `redis` is what the rate limiter's script meets.
pub record World (F S : Type 0) : Type 0 where
  pub blocked : List String
  pub events : List Event
  pub redis : RateLimit.Redis
  pub limiter : RateLimiter
  pub detector : AnomalyDetector F
  pub cache : CacheService S

-- The readings of the clock, and the latency of the lookup in the cache.
pub record Clock : Type 0 where
  pub seen : ℕ
  pub limited : ℕ
  pub counted : ℕ
  pub looked : ℕ
  pub latency : ℕ

-- What a body parser makes of a request: an error with a status, or the new `req.body`.
pub data Parsed : Type 0 where
  unparsable : ℕ → Parsed
  parsed : Option Payload → Parsed

-- The libraries: whether cors answers a request itself, as it does with a preflight, what the parsers below
-- `/api` make of it, and whether a handler below `/api` answers it, the check of tokens included.
pub record Framework : Type 0 where
  pub preflight : Request → Bool
  pub parse : Request → Parsed
  pub routes : Request → Bool

-- What becomes of a request: a handler before the cache answers it, the cache does, a parser refuses it, a
-- route of the API gets it, with its body, nothing answers it, or the proxy gets it.
pub data Fate : Type 0 where
  redirected : String → Fate
  refused : ℕ → String → Fate
  preflighted : Fate
  cached : Cached → Fate
  malformed : ℕ → Fate
  to_api : Request → Fate
  not_found to_proxy : Fate

-- What the cache reads of a request.
abbrev pub cache_request : Request → Requests.Request
cache_request req = record {
  method = req.method;
  original_url = req.original_url;
  cache_control = header "cache-control" req;
  pragma = header "pragma" req;
}

-- The texts of the log and of the answer of the rate limiter: a failure of Redis, an exhausted bucket.
pub record Texts : Type 0 where
  pub fallback : String
  pub exceeded : String → ℕ → ℕ → String

module _ {F S : Type 0} (strings : Strings) (test : Regex → String → Bool) (upper : String → String)
    (stamp : Stamp) (show : ℕ → String) (texts : Texts) (express : Framework) (tls : Tls)
    (limits : RateLimit.Config) (floats : Floats F) (client : Cache.Redis S) (json : Json)
    (utf8 : List ℕ → String) (ttl : ℕ) where
  -- The routes of the API, and the last handler.
  abbrev pub route_stage : Request → Fate
  route_stage req =
      if express.routes req
      then to_api req
      else if starts_with req.path "/api"
      then not_found
      else to_proxy

  -- The body parsers, which come before them.
  abbrev pub parse_stage : Request → Parsed → Fate
  parse_stage req (unparsable code) = malformed code
  parse_stage req (parsed body) = route_stage (record req { body = body })

  abbrev pub fate : Request → Lookup → Fate
  fate req (hit c) = cached c
  fate req bypass = parse_stage req (express.parse req)
  fate req miss = parse_stage req (express.parse req)

  cache_stage : Request → Clock → World F S → Fate × World F S
  unfolding arrive
  cache_stage req clock w =
      let (l, c) =
        arrive client json utf8 ttl (cache_request req) clock.looked clock.latency w.cache in
      (fate req l, record w { cache = c })

  waf_stage : Request → Clock → Verdict × List Event → World F S → Fate × World F S
  unfolding cache_stage
  waf_stage req clock (passes, events) w = cache_stage req clock (record w { events = events })
  waf_stage req clock (answers code message, events) w =
      (refused code message, record w { events = events })

  -- The entry for a script that fails.
  abbrev pub noted : RateLimit.Redis → Request → List Event → List Event
  noted failing req events =
      log_event strings stamp "rate-limit-fallback" req (("reason", texts.fallback) ∷ []) events
  noted inactive req events = events
  noted (active o) req events = events

  limit_stage : Request → Clock → Decision → World F S → Fate × World F S
  unfolding waf_stage inspect
  limit_stage req clock (passed limit remaining) w =
      waf_stage req clock (inspect strings test upper stamp req w.events)
        (record w { detector = Anomaly.middleware floats req clock.counted w.detector })
  limit_stage req clock (too_many_requests limit remaining retry) w = (
    refused 429 "Too Many Requests — Rate limit bucket exhausted. Please try again later.",
    record w {
      events =
          log_event strings stamp "rate-limit" req
            (("reason", texts.exceeded (get_client_ip strings req) limit remaining) ∷ []) w.events;
    },
  )

  -- cors, and the rate limiter after it.
  cors_stage : Bool → Request → Clock → World F S → Fate × World F S
  unfolding limit_stage
  cors_stage true req clock w = (preflighted, w)
  cors_stage false req clock w =
      let (decision, redis', limiter') =
        RateLimit.middleware limits (get_client_ip strings req) clock.seen clock.limited w.redis
          w.limiter in
      limit_stage req clock decision
        (record w { events = noted w.redis req w.events; redis = redis'; limiter = limiter' })

  filter_stage : Request → Clock → Verdict × List Event → World F S → Fate × World F S
  unfolding cors_stage
  filter_stage req clock (answers code message, events) w =
      (refused code message, record w { events = events })
  filter_stage req clock (passes, events) w =
      cors_stage (express.preflight req) req clock (record w { events = events })

  secure_stage : Request → Clock → Option String → World F S → Fate × World F S
  unfolding filter_stage firewall
  secure_stage req clock (some target) w = (redirected target, w)
  secure_stage req clock none w =
      filter_stage req clock (firewall strings test upper stamp w.blocked req w.events) w

  -- `createApp`: what becomes of a request, and the state of the handlers after it.
  unfoldable pub serve : Request → Clock → World F S → Fate × World F S
  unfolding secure_stage
  serve req clock w = secure_stage req clock (tls_redirect strings show tls req) w
