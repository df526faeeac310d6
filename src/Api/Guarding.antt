-- ===== src/Api/Guarding.antt =====
-- What a handler behind the check of tokens may change.
use sentinel_adc.Base.{◌≡◌, ◌⊎◌, inl, inr, refl, String, Option, List, Dict}
use sentinel_adc.Http.{Request, Strings}
use sentinel_adc.Security.{Event, Stamp, Verified, log_event}
use sentinel_adc.Security.Tokens.{IsAuthorized, authorization, check_token_lem}
use sentinel_adc.Api.{Served, error}
use sentinel_adc.Api.Security.{secured, guarded}

module _ {A W : Type 0} (strings : Strings) (verify : Option String → Verified) (stamp : Stamp)
    (handler : W → Served A × W) where
  -- A handler behind the check runs only for a request with a token of some user, and then it alone
  -- makes the answer and the change of the state; without one the answer is an error 401, the state stays
  -- as it is, and the log has one new entry.
  pub secured_lem :
      (req : Request) (w : W) (events : List Event)
      → ((u : String) × IsAuthorized strings verify (authorization strings verify stamp req) u
          × (secured strings verify stamp handler req w events
              ≡ ((handler w).0, (handler w).1, events)))
        ⊎ ((message : String) × (details : Dict String) × ((u : String)
              → ¬ IsAuthorized strings verify (authorization strings verify stamp req) u)
            × (secured strings verify stamp handler req w events ≡ (
              error 401 message,
              w,
              log_event strings stamp "unauthorized-jwt" req details events,
            )))
  unfolding secured guarded
  secured_lem req w events = elim (check_token_lem strings verify stamp req events) [
    | inl (u, authorized, e) ↦ inl (u, authorized, rw e refl)
    | inr (message, details, nobody, e) ↦ inr (message, details, nobody, rw e refl)
  ]
