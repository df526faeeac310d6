-- ===== src/Pipeline/Admission.antt =====
-- Which requests get through.
use sentinel_adc.Base.{
  ℕ, ◌≡◌, ◌≢◌, inl, inr, refl, ap, sym, ◌∙◌, String, Bool, true, false, Option, none, some, List,
  All,
}
use sentinel_adc.Http.{Request, Strings, Tls, get_client_ip, tls_redirect, header, truthy}
use sentinel_adc.Security.{Event, Stamp, Regex, Verdict, passes, answers, is_blocked}
use sentinel_adc.Security.Gate.{firewall, Decides, NoScanner, waf-Decides, firewall-Decides}
use sentinel_adc.Security.Waf.{inspect}
use sentinel_adc.Security.Waf.Scanning.{Harmless, seen_texts}
use sentinel_adc.Security.Anomaly.{Floats}
use sentinel_adc.RateLimit.{Decision, passed, too_many_requests}
use sentinel_adc.RateLimit as RateLimit
use sentinel_adc.Cache.{Json}
use sentinel_adc.Cache as Cache
use sentinel_adc.Pipeline.{
  World, Clock, Fate, redirected, refused, preflighted, cached, malformed, to_api, not_found,
  to_proxy, Framework, Texts, serve, secure_stage, filter_stage, cors_stage, limit_stage, waf_stage,
}

-- No handler before the cache has answered the request.
abbrev pub is_let_through : Fate → Bool
is_let_through (redirected target) = false
is_let_through (refused code message) = false
is_let_through preflighted = false
is_let_through (cached c) = true
is_let_through (malformed code) = true
is_let_through (to_api req) = true
is_let_through not_found = true
is_let_through to_proxy = true

abbrev pub is_passed : Decision → Bool
is_passed (passed limit remaining) = true
is_passed (too_many_requests limit remaining retry) = false

pub answers_ne : (code : ℕ) (message : String) → answers code message ≢ passes
answers_ne code message h = cc

module _ {F S : Type 0} (strings : Strings) (test : Regex → String → Bool) (upper : String → String)
    (stamp : Stamp) (show : ℕ → String) (texts : Texts) (express : Framework) (tls : Tls)
    (limits : RateLimit.Config) (floats : Floats F) (client : Cache.Redis S) (json : Json)
    (utf8 : List ℕ → String) (ttl : ℕ) where
  waf_stage-passes :
      (req : Request) (clock : Clock) (out : Verdict × List Event) (w : World F S)
      → is_let_through
          (waf_stage strings test upper stamp show texts express tls limits floats client json utf8
            ttl req clock out w).0
        ≡ true
      → out.0 ≡ passes
  unfolding waf_stage
  waf_stage-passes req clock (passes, events) w h = refl
  waf_stage-passes req clock (answers code message, events) w h = cc

  limit_stage-passes :
      (req : Request) (clock : Clock) (decision : Decision) (w : World F S)
      → is_let_through
          (limit_stage strings test upper stamp show texts express tls limits floats client json
            utf8 ttl req clock decision w).0
        ≡ true
      → (is_passed decision ≡ true) × ((inspect strings test upper stamp req w.events).0 ≡ passes)
  unfolding limit_stage
  limit_stage-passes req clock (passed limit remaining) w h =
      (refl, waf_stage-passes req clock _ _ h)
  limit_stage-passes req clock (too_many_requests limit remaining retry) w h = cc

  passes-Decides :
      (P : Type 0) (req : Request) (events : List Event) (out : Verdict × List Event)
      → Decides strings test upper stamp P req events out
      → out.0 ≡ passes
      → P
  passes-Decides P req events out (inl (p, e)) h = p
  passes-Decides P req events out (inr (not_p, (code, message, kind, details, c, e))) h =
      elim (answers_ne code message (sym (ap (λ o. o.0) e) ∙ h)) [ ]

  -- What a request that gets through has shown.
  pub record IsAdmitted (req : Request) (clock : Clock) (w : World F S) : Type 0 where
    pub not_redirected : tls_redirect strings show tls req ≡ none
    pub not_blocked : is_blocked (get_client_ip strings req) w.blocked ≡ false
    pub host : truthy (header "host" req) ≢ none
    pub no_scanner : NoScanner strings test upper stamp (truthy (header "user-agent" req))
    pub not_preflight : express.preflight req ≡ false
    pub within_limit :
        is_passed
          (RateLimit.middleware limits
            (get_client_ip strings req)
            clock.seen
            clock.limited
            w.redis
            w.limiter).0
        ≡ true
    pub harmless : All (Harmless test) (seen_texts req)

  -- Neither cors nor the limiter answers the request, and nothing in it is harmful.
  abbrev Unhindered : Bool → Request → Clock → World F S → Type 0
  Unhindered preflight req clock w =
      (preflight ≡ false)
      × (is_passed
            (RateLimit.middleware limits (get_client_ip strings req) clock.seen clock.limited
              w.redis w.limiter).0
          ≡ true)
      × All (Harmless test) (seen_texts req)

  cors_stage-passes :
      (preflight : Bool) (req : Request) (clock : Clock) (w : World F S)
      → is_let_through
          (cors_stage strings test upper stamp show texts express tls limits floats client json utf8
            ttl preflight req clock w).0
        ≡ true
      → Unhindered preflight req clock w
  unfolding cors_stage
  cors_stage-passes true req clock w h = cc
  cors_stage-passes false req clock w h =
      let (within, clean) = limit_stage-passes req clock _ _ h in
      (refl, within, passes-Decides _ _ _ _ (waf-Decides strings test upper stamp req _) clean)

  filter_stage-passes :
      (req : Request) (clock : Clock) (out : Verdict × List Event) (w : World F S)
      → is_let_through
          (filter_stage strings test upper stamp show texts express tls limits floats client json
            utf8 ttl req clock out w).0
        ≡ true
      → (out.0 ≡ passes) × Unhindered (express.preflight req) req clock w
  unfolding filter_stage
  filter_stage-passes req clock (answers code message, events) w h = cc
  filter_stage-passes req clock (passes, events) w h =
      (refl, cors_stage-passes (express.preflight req) req clock (record w { events = events }) h)

  secure_stage-passes :
      (req : Request) (clock : Clock) (target : Option String) (w : World F S)
      → is_let_through
          (secure_stage strings test upper stamp show texts express tls limits floats client json
            utf8 ttl req clock target w).0
        ≡ true
      → (target ≡ none)
        × ((firewall strings test upper stamp w.blocked req w.events).0 ≡ passes)
        × Unhindered (express.preflight req) req clock w
  unfolding secure_stage
  secure_stage-passes req clock (some target) w h = cc
  secure_stage-passes req clock none w h =
      let (clean, rest) = filter_stage-passes req clock _ w h in (refl, clean, rest)

  -- A request gets past the handlers before the cache only if it needs no redirection, its client is
  -- not blocked, it has a Host header and no User-Agent of a scanner, cors does not answer it, the rate
  -- limiter lets it pass, and no pattern of the firewall matches its path, query or parsed body.
  pub is_let_through-IsAdmitted :
      (req : Request) (clock : Clock) (w : World F S)
      → is_let_through
          (serve strings test upper stamp show texts express tls limits floats client json utf8 ttl
            req clock w).0
        ≡ true
      → IsAdmitted req clock w
  unfolding serve
  is_let_through-IsAdmitted req clock w h =
      let (direct, filtered, (asked, within, harmless)) = secure_stage-passes req clock _ w h in
      let (free, (host, agent)) =
        passes-Decides _ req w.events _
          (firewall-Decides strings test upper stamp w.blocked req w.events) filtered in
      record {
        not_redirected = direct;
        not_blocked = free;
        host = host;
        no_scanner = agent;
        not_preflight = asked;
        within_limit = within;
        harmless = harmless;
      }
