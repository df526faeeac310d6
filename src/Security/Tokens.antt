-- ===== src/Security/Tokens.antt =====
-- Who passes the check of tokens, and what a handler behind it may change.
use text.Mathlib.Text.{starts_with}
use sentinel_adc.Base.{
  ◌≡◌, ◌≢◌, ◌⊎◌, inl, inr, refl, sym, ◌∙◌, String, true, Option, none, some, List, [], ◌∷◌,
  Bool-cases, get_elem?, Dict,
}
use sentinel_adc.Http.{Request, Strings, header, truthy, get_or}
use sentinel_adc.Security.{
  Event, Stamp, Verdict, passes, answers, Verified, user, invalid, check_token, token_checked,
  log_event,
}

-- The second piece of an Authorization header that begins with `Bearer ` is a token of this user.
pub record IsAuthorized (strings : Strings) (verify : Option String → Verified) (auth : String)
    (u : String) : Type 0 where
  pub bearer : starts_with auth "Bearer " ≡ true
  pub verified : verify (get_elem? (strings.split auth " ") 1) ≡ user u

module _ (strings : Strings) (verify : Option String → Verified) (stamp : Stamp) where
  -- The text of the header.
  abbrev pub authorization : Request → String
  authorization req = get_or (truthy (header "authorization" req)) ""

  -- The request goes on as this user, or it is answered with 401 and one new entry in the log.
  abbrev pub Passes : Request → List Event → Verdict × Option String × List Event → Type 0
  Passes req events out =
      (u : String) × IsAuthorized strings verify (authorization req) u
      × (out ≡ (passes, some u, events))

  abbrev pub Fails : Request → List Event → Verdict × Option String × List Event → Type 0
  Fails req events out =
      (message : String) × (details : Dict String) × ((u : String)
        → ¬ IsAuthorized strings verify (authorization req) u)
      × (out ≡ (
        answers 401 message,
        none,
        log_event strings stamp "unauthorized-jwt" req details events,
      ))

  token-cases :
      (req : Request) (v : Verified) (events : List Event)
      → ((u : String) × (v ≡ user u)
          × (token_checked strings verify stamp req v events ≡ (passes, some u, events)))
        ⊎ ((message : String) × (details : Dict String) × ((u : String) → v ≢ user u)
            × (token_checked strings verify stamp req v events ≡ (
              answers 401 message,
              none,
              log_event strings stamp "unauthorized-jwt" req details events,
            )))
  unfolding token_checked
  token-cases req (user u) events = inl (u, refl, refl)
  token-cases req (invalid message) events = inr (_, _, (λ u e. cc), refl)

  -- A request passes as a user exactly when its header carries a token of that user; any other is
  -- answered with 401, and one entry is added to the log.
  pub check_token_lem :
      (req : Request) (events : List Event)
      → Passes req events (check_token strings verify stamp req events)
        ⊎ Fails req events (check_token strings verify stamp req events)
  unfolding check_token
  check_token_lem req events = elim (Bool-cases (starts_with (authorization req) "Bearer ")) [
    | inl bearer ↦
        elim (token-cases req (verify (get_elem? (strings.split (authorization req) " ") 1))
          events) [
            | inl (u, verified, e) ↦
                inl (u, record { bearer = bearer; verified = verified }, rw bearer e)
            | inr (message, details, nobody, e) ↦
                inr (message, details, (λ u h. nobody u h.verified), rw bearer e)
          ]
    | inr other ↦ inr (
      "Unauthorized — Missing or malformed Authorization token",
      ("reason", "Missing or malformed Authorization Bearer header") ∷ [],
      (λ u h. cc (sym other ∙ h.bearer)),
      rw other refl,
    )
  ]
