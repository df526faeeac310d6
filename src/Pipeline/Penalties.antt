-- ===== src/Pipeline/Penalties.antt =====
-- Who meets a penalty: the rate limiter knows a client by `getClientIp`, the anomaly detector by the address
-- of its connection.
use sentinel_adc.Base.{
  true, false, ℕ, ◌≡◌, ◌≢◌, refl, Bool, Bool-cases, inl, inr, String, Option, none, some, List, [],
  ◌∷◌, All, Dict, lookup, IsMap, arith, str_eq,
}
use sentinel_adc.Http.{Request, Strings, Tls, get_client_ip}
use sentinel_adc.Security.{Event, Stamp, Regex, Verdict, passes, answers}
use sentinel_adc.RateLimit.{
  RateLimiter, Penalty, Decision, passed, too_many_requests, capacity_of, cleanup_memory_store,
  live_penalties, inactive, failing, active,
}
use sentinel_adc.RateLimit as RateLimit
use sentinel_adc.RateLimit.Middleware.{middleware_unpunished}
use sentinel_adc.Security.Anomaly.{Floats, Anomaly, evaluate_windows}
use sentinel_adc.Security.Anomaly.Unseen.{
  connection, IsMissed, middleware-IsMissed, evaluate_windows-IsMissed,
}
use sentinel_adc.Cache.{Json}
use sentinel_adc.Cache as Cache
use sentinel_adc.Pipeline.{
  World, Clock, Texts, Framework, cors_stage, serve, secure_stage, filter_stage, limit_stage,
  waf_stage, cache_stage, noted,
}

-- A request, an evaluation of the detector, a cleanup of the limiter.
pub data Step : Type 0 where
  arrives : Request → Clock → Step
  evaluates : ℕ → Step
  cleans : ℕ → Step

-- The connection of a request comes from another address.
abbrev pub Elsewhere : String → Step → Type 0
Elsewhere client (arrives req clock) = connection req ≢ client
Elsewhere client (evaluates now) = Unit
Elsewhere client (cleans now) = Unit

none-live_penalties :
    (now : ℕ) (client : String) (m : Dict Penalty)
    → lookup client m ≡ none
    → lookup client (live_penalties now m) ≡ none
unfolding live_penalties lookup
none-live_penalties now client [] h = refl
none-live_penalties now client ((ip, p) ∷ m) h = elim (Bool-cases (str_eq ip client)) [
  | inl same ↦ (cc (rw same at h))
  | inr other ↦
      let rest = none-live_penalties now client m (rw other at h) in ground (arith, other, rest)
]

module _ {F S : Type 0} (strings : Strings) (test : Regex → String → Bool) (upper : String → String)
    (stamp : Stamp) (show : ℕ → String) (texts : Texts) (express : Framework) (tls : Tls)
    (limits : RateLimit.Config) (floats : Floats F) (client : Cache.Redis S) (json : Json)
    (utf8 : List ℕ → String) (ttl : ℕ) where
  -- The detector and the limiter of the state.
  abbrev Missed : String → World F S → Type 0
  Missed ip w = IsMissed ip w.detector w.limiter

  waf_stage-Missed :
      (req : Request) (clock : Clock) (ip : String) (out : Verdict × List Event) (w : World F S)
      → Missed ip w
      → Missed ip
          (waf_stage strings test upper stamp show texts express tls limits floats client json utf8
            ttl req clock out w).1
  unfolding waf_stage cache_stage
  waf_stage-Missed req clock ip (passes, events) w h = h
  waf_stage-Missed req clock ip (answers code message, events) w h = h

  limit_stage-Missed :
      (req : Request) (clock : Clock) (ip : String) (decision : Decision) (w : World F S)
      → connection req ≢ ip
      → Missed ip w
      → Missed ip
          (limit_stage strings test upper stamp show texts express tls limits floats client json
            utf8 ttl req clock decision w).1
  unfolding limit_stage
  limit_stage-Missed req clock ip (passed limit remaining) w ne h =
      waf_stage-Missed req clock ip _ _
        (middleware-IsMissed floats req ip clock.counted w.detector w.limiter ne h)
  limit_stage-Missed req clock ip (too_many_requests limit remaining retry) w ne h = h

  cors_stage-Missed :
      (preflight : Bool) (req : Request) (clock : Clock) (ip : String) (w : World F S)
      → connection req ≢ ip
      → Missed ip w
      → Missed ip
          (cors_stage strings test upper stamp show texts express tls limits floats client json utf8
            ttl preflight req clock w).1
  unfolding cors_stage
  cors_stage-Missed true req clock ip w ne h = h
  cors_stage-Missed false req clock ip w ne h =
      let key = get_client_ip strings req in
      let (decision, redis', limiter') =
        RateLimit.middleware limits key clock.seen clock.limited w.redis w.limiter in
      let events' =
        noted strings test upper stamp show texts express tls limits floats client json utf8 ttl
          w.redis req w.events in
      limit_stage-Missed req clock ip decision
        (record w { events = events'; redis = redis'; limiter = limiter' }) ne
        (record {
          map = h.map;
          unseen = h.unseen;
          unpunished =
              middleware_unpunished limits key ip clock.seen clock.limited w.redis w.limiter
                h.unpunished;
        })

  filter_stage-Missed :
      (req : Request) (clock : Clock) (ip : String) (out : Verdict × List Event) (w : World F S)
      → connection req ≢ ip
      → Missed ip w
      → Missed ip
          (filter_stage strings test upper stamp show texts express tls limits floats client json
            utf8 ttl req clock out w).1
  unfolding filter_stage
  filter_stage-Missed req clock ip (answers code message, events) w ne h = h
  filter_stage-Missed req clock ip (passes, events) w ne h =
      cors_stage-Missed (express.preflight req) req clock ip (record w { events = events }) ne h

  secure_stage-Missed :
      (req : Request) (clock : Clock) (ip : String) (target : Option String) (w : World F S)
      → connection req ≢ ip
      → Missed ip w
      → Missed ip
          (secure_stage strings test upper stamp show texts express tls limits floats client json
            utf8 ttl req clock target w).1
  unfolding secure_stage
  secure_stage-Missed req clock ip (some target) w ne h = h
  secure_stage-Missed req clock ip none w ne h = filter_stage-Missed req clock ip _ w ne h

  serve-Missed :
      (req : Request) (clock : Clock) (ip : String) (w : World F S)
      → connection req ≢ ip
      → Missed ip w
      → Missed ip
          (serve strings test upper stamp show texts express tls limits floats client json utf8 ttl
            req clock w).1
  unfolding serve
  serve-Missed req clock ip w ne h = secure_stage-Missed req clock ip _ w ne h

  module _ (describe : Anomaly F → Dict String) where
    -- The state after a step.
    unfoldable pub step : Step → World F S → World F S
    step (arrives req clock) w =
        (serve strings test upper stamp show texts express tls limits floats client json utf8 ttl
          req clock w).1
    step (evaluates now) w =
        let (d, events, l) =
          evaluate_windows floats strings describe stamp now w.detector w.events w.limiter in
        record w { detector = d; events = events; limiter = l }
    step (cleans now) w = record w { limiter = cleanup_memory_store now w.limiter }

    step-Missed :
        (e : Step) (ip : String) (w : World F S)
        → Elsewhere ip e
        → Missed ip w
        → Missed ip (step e w)
    unfolding step cleanup_memory_store
    step-Missed (arrives req clock) ip w ne h = serve-Missed req clock ip w ne h
    step-Missed (evaluates now) ip w ne h =
        evaluate_windows-IsMissed floats strings describe stamp ip now w.detector w.events w.limiter
          h
    step-Missed (cleans now) ip w ne h = record {
      map = h.map;
      unseen = h.unseen;
      unpunished = none-live_penalties now ip w.limiter.penalized_ips h.unpunished;
    }

    -- The state after the steps, the first one first.
    unfoldable pub run : List Step → World F S → World F S
    unfolding step
    run [] w = w
    run (e ∷ es) w = run es (step e w)

    run-Missed :
        (es : List Step) (ip : String) (w : World F S)
        → All (Elsewhere ip) es
        → Missed ip w
        → Missed ip (run es w)
    unfolding run
    run-Missed [] ip w away h = h
    run-Missed (e ∷ es) ip w away h =
        run-Missed es ip (step e w) away.1 (step-Missed e ip w away.0 h)

    -- While no request comes over a connection from the address that the limiter knows a client by, the
    -- client keeps the full rate through any requests, its own included, any evaluations of the detector
    -- and any cleanups, if at the start it has no penalty and the detector has no entry for it.
    pub penalty_missed :
        (es : List Step) (ip : String) (w : World F S) (seen : ℕ)
        → IsMap w.detector.ip_stats
        → lookup ip w.detector.ip_stats ≡ none
        → lookup ip w.limiter.penalized_ips ≡ none
        → All (Elsewhere ip) es
        → capacity_of limits ip seen (run es w).limiter ≡ limits.max_requests
    unfolding capacity_of
    penalty_missed es ip w seen map unseen unpunished away =
        let h =
          run-Missed es ip w away
            (record { map = map; unseen = unseen; unpunished = unpunished }) in
        rw h.unpunished refl
