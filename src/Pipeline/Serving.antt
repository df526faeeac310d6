-- ===== src/Pipeline/Serving.antt =====
-- Which requests get through, and what follows: the conditions of the handlers of src/app.js are enough.
use sentinel_adc.Base.{
  Option, Bool-cases, if◌then◌else◌, false, ℕ, ◌≡◌, inl, inr, refl, ap, String, ◌↔◌, Bool, true,
  List, All,
}
use text.Mathlib.Text.{starts_with}
use sentinel_adc.Http.{Payload, Request, Strings, Tls, get_client_ip}
use sentinel_adc.Security.{Event, Stamp, Regex, Verdict, passes, answers}
use sentinel_adc.Security.Gate.{Decides, waf-Decides, firewall-Decides}
use sentinel_adc.Security.Waf.Scanning.{Harmless, seen_texts}
use sentinel_adc.Security.Anomaly.{Floats}
use sentinel_adc.RateLimit.{Decision, passed, too_many_requests}
use sentinel_adc.RateLimit as RateLimit
use sentinel_adc.Cache.{Json}
use sentinel_adc.Cache as Cache
use sentinel_adc.Cache.Requests.{arrive, Lookup, bypass, miss, hit}
use sentinel_adc.Pipeline.{
  Fate, redirected, refused, preflighted, cached, malformed, to_api, not_found, to_proxy, World,
  Clock, Texts, Framework, Parsed, unparsable, parsed, serve, secure_stage, filter_stage,
  cors_stage, limit_stage, waf_stage, cache_stage, fate, noted, cache_request, parse_stage,
}
use sentinel_adc.Pipeline.Admission.{
  is_let_through, is_passed, answers_ne, IsAdmitted, is_let_through-IsAdmitted,
}

abbrev pub is_hit : Lookup → Bool
is_hit bypass = false
is_hit miss = false
is_hit (hit c) = true

module _ {F S : Type 0} (strings : Strings) (test : Regex → String → Bool) (upper : String → String)
    (stamp : Stamp) (show : ℕ → String) (texts : Texts) (express : Framework) (tls : Tls)
    (limits : RateLimit.Config) (floats : Floats F) (client : Cache.Redis S) (json : Json)
    (utf8 : List ℕ → String) (ttl : ℕ) where
  -- The parsers give the request this body, and a handler of the API answers it or not.
  abbrev pub Parses : Request → Bool → Type 0
  Parses req answered =
      (body : Option Payload) × (express.parse req ≡ parsed body)
      × (express.routes (record req { body = body }) ≡ answered)

  -- What has led to a fate, after the handlers before the cache.
  abbrev pub Follows : Request → Lookup → Fate → Type 0
  Follows req l (redirected target) = ⊥
  Follows req l (refused code message) = ⊥
  Follows req l preflighted = ⊥
  Follows req l (cached c) = l ≡ hit c
  Follows req l (malformed code) = (is_hit l ≡ false) × (express.parse req ≡ unparsable code)
  Follows req l (to_api r) =
      (is_hit l ≡ false)
      × (body : Option Payload) × (express.parse req ≡ parsed body)
      × (r ≡ record req { body = body })
      × (express.routes r ≡ true)
  Follows req l not_found =
      (is_hit l ≡ false) × Parses req false × (starts_with req.path "/api" ≡ true)
  Follows req l to_proxy =
      (is_hit l ≡ false) × Parses req false × (starts_with req.path "/api" ≡ false)

  unanswered-Follows :
      (req : Request) (l : Lookup) (below : Bool)
      → is_hit l ≡ false
      → Parses req false
      → starts_with req.path "/api" ≡ below
      → Follows req l (if below then not_found else to_proxy)
  unanswered-Follows req l true missed unanswered e = (missed, unanswered, e)
  unanswered-Follows req l false missed unanswered e = (missed, unanswered, e)

  parse_stage-Follows :
      (req : Request) (l : Lookup) (p : Parsed)
      → is_hit l ≡ false
      → express.parse req ≡ p
      → Follows req l (
          parse_stage strings test upper stamp show texts express tls limits floats client json utf8
            ttl req p)
  parse_stage-Follows req l (unparsable code) missed e = (missed, e)
  parse_stage-Follows req l (parsed body) missed e =
      elim (Bool-cases (express.routes (record req { body = body }))) [
        | inl answered ↦ rw answered (missed, body, e, refl, answered)
        | inr left ↦
            rw left
              (unanswered-Follows req l (starts_with req.path "/api") missed (body, e, left) refl)
      ]

  fate-Follows :
      (req : Request) (l : Lookup)
      → Follows req l (
          fate strings test upper stamp show texts express tls limits floats client json utf8 ttl
            req l)
  fate-Follows req (hit c) = refl
  fate-Follows req bypass = parse_stage-Follows req bypass (express.parse req) refl refl
  fate-Follows req miss = parse_stage-Follows req miss (express.parse req) refl refl

  Follows-is_let_through :
      (req : Request) (l : Lookup) (f : Fate) → Follows req l f → is_let_through f ≡ true
  Follows-is_let_through req l (redirected target) h = elim h [ ]
  Follows-is_let_through req l (refused code message) h = elim h [ ]
  Follows-is_let_through req l preflighted h = elim h [ ]
  Follows-is_let_through req l (cached c) h = refl
  Follows-is_let_through req l (malformed code) h = refl
  Follows-is_let_through req l (to_api r) h = refl
  Follows-is_let_through req l not_found h = refl
  Follows-is_let_through req l to_proxy h = refl

  -- What the cache makes of the request.
  abbrev pub lookup_of : Request → Clock → World F S → Lookup
  lookup_of req clock w =
      (arrive client json utf8 ttl (cache_request req) clock.looked clock.latency w.cache).0

  waf_stage-fate :
      (req : Request) (clock : Clock) (out : Verdict × List Event) (w : World F S)
      → out.0 ≡ passes
      → (waf_stage strings test upper stamp show texts express tls limits floats client json utf8
          ttl req clock out w).0
        ≡ fate strings test upper stamp show texts express tls limits floats client json utf8 ttl
            req
            (lookup_of req clock w)
  unfolding waf_stage cache_stage
  waf_stage-fate req clock (passes, events) w h = refl
  waf_stage-fate req clock (answers code message, events) w h = elim (answers_ne code message h) [ ]

  Decides-is_passed :
      (P : Type 0) (req : Request) (events : List Event) (out : Verdict × List Event)
      → Decides strings test upper stamp P req events out
      → P
      → out.0 ≡ passes
  Decides-is_passed P req events out (inl (p, e)) h = ap (λ o. o.0) e
  Decides-is_passed P req events out (inr (not_p, refusal)) h = elim (not_p h) [ ]

  limit_stage-fate :
      (req : Request) (clock : Clock) (decision : Decision) (w : World F S)
      → is_passed decision ≡ true
      → All (Harmless test) (seen_texts req)
      → (limit_stage strings test upper stamp show texts express tls limits floats client json utf8
          ttl req clock decision w).0
        ≡ fate strings test upper stamp show texts express tls limits floats client json utf8 ttl
            req
            (lookup_of req clock w)
  unfolding limit_stage
  limit_stage-fate req clock (passed limit remaining) w h harmless =
      waf_stage-fate req clock _ _
        (Decides-is_passed _ _ _ _ (waf-Decides strings test upper stamp req _) harmless)
  limit_stage-fate req clock (too_many_requests limit remaining retry) w h harmless = cc

  filter_stage-fate :
      (req : Request) (clock : Clock) (out : Verdict × List Event) (w : World F S)
      → out.0 ≡ passes
      → express.preflight req ≡ false
      → is_passed
          (RateLimit.middleware limits
            (get_client_ip strings req)
            clock.seen
            clock.limited
            w.redis
            w.limiter).0
        ≡ true
      → All (Harmless test) (seen_texts req)
      → (filter_stage strings test upper stamp show texts express tls limits floats client json utf8
          ttl req clock out w).0
        ≡ fate strings test upper stamp show texts express tls limits floats client json utf8 ttl
            req
            (lookup_of req clock w)
  unfolding filter_stage cors_stage
  filter_stage-fate req clock (answers code message, events) w h asked within harmless =
      elim (answers_ne code message h) [ ]
  filter_stage-fate req clock (passes, events) w h asked within harmless =
      let (decision, redis', limiter') =
        RateLimit.middleware limits (get_client_ip strings req) clock.seen clock.limited w.redis
          w.limiter in
      let events' =
        noted strings test upper stamp show texts express tls limits floats client json utf8 ttl
          w.redis req events in
      rw asked (
        limit_stage-fate req clock decision
          (record w { events = events'; redis = redis'; limiter = limiter' }) within harmless)

  pub IsAdmitted-fate :
      (req : Request) (clock : Clock) (w : World F S)
      → IsAdmitted strings test upper stamp show texts express tls limits floats client json utf8
          ttl req clock w
      → (serve strings test upper stamp show texts express tls limits floats client json utf8 ttl
          req clock w).0
        ≡ fate strings test upper stamp show texts express tls limits floats client json utf8 ttl
            req
            (lookup_of req clock w)
  unfolding serve secure_stage
  IsAdmitted-fate req clock w k =
      let filtered =
        Decides-is_passed _ req w.events _
          (firewall-Decides strings test upper stamp w.blocked req w.events)
          (k.not_blocked, (k.host, k.no_scanner)) in
      rw k.not_redirected
        (filter_stage-fate req clock _ w filtered k.not_preflight k.within_limit k.harmless)

  pub serve-IsAdmitted :
      (req : Request) (clock : Clock) (w : World F S)
      → (is_let_through
            (serve strings test upper stamp show texts express tls limits floats client json utf8
              ttl req clock w).0
          ≡ true)
        ↔ (IsAdmitted strings test upper stamp show texts express tls limits floats client json utf8
              ttl req clock w
            × Follows req
                (lookup_of req clock w)
                (serve strings test upper stamp show texts express tls limits floats client json
                  utf8 ttl req clock w).0)
  serve-IsAdmitted req clock w = (
    (λ h.
        let k =
          is_let_through-IsAdmitted strings test upper stamp show texts express tls limits floats
            client json utf8 ttl req clock w h in
        (k, rw (IsAdmitted-fate req clock w k) (fate-Follows req (lookup_of req clock w)))),
    (λ k. Follows-is_let_through req (lookup_of req clock w) _ k.1),
  )
