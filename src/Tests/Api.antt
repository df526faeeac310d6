-- ===== src/Tests/Api.antt =====
-- Runs of the handlers of the API.
use sentinel_adc.Base.{◌≡◌, ◌⊎◌, String, Option, some, [], ◌∷◌, Dict}
use sentinel_adc.Security.{Verified, invalid, log_event}
use sentinel_adc.Security.Tokens.{IsAuthorized, authorization}
use sentinel_adc.Circuit.Steps.{view, normal, fails, run}
use sentinel_adc.Api.{error, reset_all}
use sentinel_adc.Api.Security.{secured, block_ip}
use sentinel_adc.Api.Guarding.{secured_lem}
use sentinel_adc.Api.Resetting.{reset_all-normal}
use sentinel_adc.Tests.Proxy.{manager}
use sentinel_adc.Tests.Security.{strings, stamp, request}

abbrev verify : Option String → Verified
verify token = invalid "jwt expired"

secured_lem_example :
    ((u : String) × IsAuthorized strings verify
        (authorization strings verify stamp (request "curl"))
        u
      × (secured strings verify stamp (block_ip (some "1.2.3.4")) (request "curl") [] []
          ≡ ((block_ip (some "1.2.3.4") []).0, (block_ip (some "1.2.3.4") []).1, [])))
    ⊎ ((message : String) × (details : Dict String) × ((u : String)
          → ¬ IsAuthorized strings verify (authorization strings verify stamp (request "curl")) u)
        × (secured strings verify stamp (block_ip (some "1.2.3.4")) (request "curl") [] [] ≡ (
          error 401 message,
          [],
          log_event strings stamp "unauthorized-jwt" (request "curl") details [],
        )))
secured_lem_example =
    secured_lem strings verify stamp (block_ip (some "1.2.3.4")) (request "curl") [] []

reset_all-normal_example :
    view "a"
      (reset_all 9 9 (
        run manager (
          ("a", fails "timeout", 1, 1)
          ∷ ("a", fails "timeout", 2, 2)
          ∷ ("a", fails "timeout", 3, 3)
          ∷ []))).1
    ≡ normal 0
reset_all-normal_example = reset_all-normal "a" 9 9 (
    run manager (
      ("a", fails "timeout", 1, 1)
      ∷ ("a", fails "timeout", 2, 2)
      ∷ ("a", fails "timeout", 3, 3)
      ∷ []))
