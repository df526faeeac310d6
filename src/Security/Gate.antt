-- ===== src/Security/Gate.antt =====
-- The filters one after the other, in the order of the pipeline (src/app.js).
use sentinel_adc.Base.{
  ℕ, ◌≡◌, ◌≢◌, ◌⊎◌, inl, inr, refl, ap, String, Bool, false, Option, none, some, List, [], ◌∷◌, All,
  Option-cases, Bool-cases, Dict,
}
use sentinel_adc.Http.{Request, Strings, get_client_ip, header, truthy}
use sentinel_adc.Security.{
  Event, Stamp, Regex, Verdict, passes, answers, is_blocked, check_blocked, validate_headers,
  log_event, scanners, first_match, scanned, agent_checked, host_checked,
}
use sentinel_adc.Security.Waf.{inspect}
use sentinel_adc.Security.Waf.Scanning.{Harmless, seen_texts, inspect_lem}

-- What comes after a handler that has passed the request on.
abbrev pub next : Verdict × List Event → (List Event → Verdict × List Event) → Verdict × List Event
next (passes, events) k = k events
next (answers code message, events) k = (answers code message, events)

module _ (strings : Strings) (test : Regex → String → Bool) (upper : String → String)
    (stamp : Stamp) where
  -- `ipBlocklist.middleware()` and `headerValidator()`, one after the other.
  unfoldable pub firewall : List String → Request → List Event → Verdict × List Event
  unfolding check_blocked validate_headers
  firewall blocked req events =
      next (check_blocked strings test stamp blocked req events)
        (validate_headers strings test stamp req)

  -- No User-Agent, or one of no known scanner.
  abbrev pub NoScanner : Option String → Type 0
  NoScanner none = Unit
  NoScanner (some agent) = first_match test scanners agent ≡ none

  -- The answer and the log of a request that is turned away.
  abbrev pub Refused : Request → List Event → Verdict × List Event → Type 0
  Refused req events out =
      (code : ℕ) × (message : String) × (kind : String) × (details : Dict String) × ((code ≡ 403)
        ⊎ (code ≡ 400))
      × (out ≡ (answers code message, log_event strings stamp kind req details events))

  -- Either it holds and the request goes on, or not and the request is refused.
  abbrev pub Decides : Type 0 → Request → List Event → Verdict × List Event → Type 0
  Decides P req events out = (P × (out ≡ (passes, events))) ⊎ ((¬ P) × Refused req events out)

  agent-Decides :
      (req : Request) (agent : Option String) (events : List Event)
      → Decides (NoScanner agent) req events (agent_checked strings test stamp req agent events)
  unfolding agent_checked scanned
  agent-Decides req none events = inl (tt, refl)
  agent-Decides req (some agent) events = elim (Option-cases (first_match test scanners agent)) [
    | inl clean ↦ inl (clean, rw clean)
    | inr (r, found) ↦ inr (
      (λ clean. cc),
      (403, _, _, _, inl refl, ap (λ o. scanned strings test stamp req agent o events) found),
    )
  ]

  host-Decides :
      (req : Request) (host : Option String) (events : List Event)
      → Decides
          ((host ≢ none) × NoScanner (truthy (header "user-agent" req)))
          req
          events
          (host_checked strings test stamp req host events)
  unfolding host_checked
  host-Decides req none events = inr ((λ h. h.0 refl), (400, _, _, _, inr refl, refl))
  host-Decides req (some host) events =
      elim (agent-Decides req (truthy (header "user-agent" req)) events) [
        | inl (clean, passed) ↦ inl (((λ e. cc), clean), passed)
        | inr (found, refused) ↦ inr ((λ h. found h.1), refused)
      ]

  pub headers-Decides :
      (req : Request) (events : List Event)
      → Decides
          ((truthy (header "host" req) ≢ none) × NoScanner (truthy (header "user-agent" req)))
          req
          events
          (validate_headers strings test stamp req events)
  unfolding validate_headers
  headers-Decides req events = host-Decides req (truthy (header "host" req)) events

  pub blocked-Decides :
      (blocked : List String) (req : Request) (events : List Event)
      → Decides
          (is_blocked (get_client_ip strings req) blocked ≡ false)
          req
          events
          (check_blocked strings test stamp blocked req events)
  unfolding check_blocked
  blocked-Decides blocked req events =
      elim (Bool-cases (is_blocked (get_client_ip strings req) blocked)) [
        | inl found ↦ inr (
          (λ h. cc),
          (
            403,
            "Access Forbidden — client IP has been blocked by administrator",
            "ip-blocked",
            ("reason", "Client IP is present in the firewall blocklist") ∷ [],
            inl refl,
            rw found refl,
          ),
        )
        | inr free ↦ inl (free, rw free)
      ]

  -- `wafMiddleware` lets a request pass, and leaves the log as it is, exactly when no pattern matches its
  -- path, its query or its body, if there is one; any other request is answered with 403 and leaves one
  -- new entry in the log.
  pub waf-Decides :
      (req : Request) (events : List Event)
      → Decides
          (All (Harmless test) (seen_texts req))
          req
          events
          (inspect strings test upper stamp req events)
  waf-Decides req events = elim (inspect_lem strings test upper stamp req events) [
    | inl ok ↦ inl ok
    | inr (harm, message, details, e) ↦ inr (harm, (403, message, _, details, inl refl, e))
  ]

  pub next-Decides :
      (P Q : Type 0) (req : Request) (events : List Event) (out : Verdict × List Event)
      (k : List Event → Verdict × List Event)
      → Decides P req events out
      → Decides Q req events (k events)
      → Decides (P × Q) req events (next out k)
  next-Decides P Q req events out k (inl (p, passed)) (inl (q, e)) = inl ((p, q), rw passed e)
  next-Decides P Q req events out k (inl (p, passed))
        (inr (not_q, (code, message, kind, details, c, e))) =
      inr ((λ h. not_q h.1), (code, message, kind, details, c, rw passed e))
  next-Decides P Q req events out k (inr (not_p, (code, message, kind, details, c, e))) q =
      inr ((λ h. not_p h.0), (code, message, kind, details, c, rw e refl))

  -- A request gets through the blocklist and the check of headers, which then leave the log as it is,
  -- exactly when its client is not blocked, it has a Host header and its User-Agent is of no known scanner;
  -- any other request is answered with 403 or 400 and leaves one new entry in the log.
  pub firewall-Decides :
      (blocked : List String) (req : Request) (events : List Event)
      → Decides
          ((is_blocked (get_client_ip strings req) blocked ≡ false)
            × ((truthy (header "host" req) ≢ none) × NoScanner (truthy (header "user-agent" req))))
          req
          events
          (firewall blocked req events)
  unfolding firewall
  firewall-Decides blocked req events =
      next-Decides _ _ req events _ _ (blocked-Decides blocked req events)
        (headers-Decides req events)
