-- ===== src/Tests/Pipeline.antt =====
-- A run of a request through the handlers.
use sentinel_adc.Base.{
  none, str_eq, if◌then◌else◌, some, ℕ, ◌≡◌, ◌≢◌, refl, String, List, true, false, [], ◌∷◌, lookup,
  str_eq_iff,
}
use sentinel_adc.Pipeline.Penalties.{Step, arrives, evaluates, cleans, run, penalty_missed}
use sentinel_adc.Http.{Request, text, Tls, get_client_ip, tls_redirect}
use sentinel_adc.RateLimit.{Config, inactive, middleware, capacity_of}
use sentinel_adc.Cache.Requests.{is_cacheable}
use sentinel_adc.Pipeline.{World, Clock, Texts, Framework, parsed, serve}
use sentinel_adc.Pipeline.Admission.{is_let_through, IsAdmitted}
use sentinel_adc.Pipeline.Serving.{serve-IsAdmitted}
use sentinel_adc.Tests.Security.{strings, stamp, request, test, floats, detector, limiter, describe}
use sentinel_adc.Tests.Cache.{Kept, client, json, service, utf8}

abbrev world : World ℕ Kept
world = record {
  blocked = "9.9.9.9" ∷ [];
  events = [];
  redis = inactive;
  limiter = limiter;
  detector = detector [];
  cache = service true;
}

abbrev clock : Clock
clock = record { seen = 100; limited = 101; counted = 102; looked = 103; latency = 1 }

abbrev texts : Texts
texts = record { fallback = "Redis failed"; exceeded = λ ip limit remaining. "exceeded" }

abbrev tls : Tls
tls = record { enabled = false; redirect = false; port = 443 }

abbrev limits : Config
limits = record { window_ms = 1000; max_requests = 10 }

abbrev upper : String → String
upper s = s

abbrev show : ℕ → String
show n = "n"

-- A POST below `/api` has a body that a pattern of the firewall matches.
abbrev express : Framework
express = record {
  preflight = λ req. str_eq req.method "OPTIONS";
  parse =
      λ req. if str_eq req.method "POST" then parsed (some (text "javascript:")) else parsed none;
  routes = λ req. str_eq req.path "/api/a";
}

abbrev posted : Request
posted = record (request "curl") {
  method = "POST";
  original_url = "/api/a";
  url = "/api/a";
  path = "/api/a";
}

served :
    is_let_through
      (serve strings test upper stamp show texts express tls limits floats client json utf8 60
        posted clock world).0
    ≡ true
unfolding serve tls_redirect get_client_ip lookup middleware is_cacheable
served = refl

-- The condition holds of this request.
admitted :
    IsAdmitted strings test upper stamp show texts express tls limits floats client json utf8 60
      posted clock world
admitted =
    ((serve-IsAdmitted strings test upper stamp show texts express tls limits floats client json
        utf8 60 posted clock world).0
      served).0

-- A request of 1.2.3.4 by way of a proxy.
abbrev relayed : Request
relayed = record (request "curl") {
  headers = ("x-forwarded-for", "1.2.3.4") ∷ ("host", "shop") ∷ [];
  remote_address = some "5.6.7.8";
}

abbrev traffic : List Step
traffic =
    arrives relayed clock
    ∷ evaluates 10200
    ∷ arrives relayed clock
    ∷ evaluates 20400
    ∷ cleans 30000
    ∷ []

abbrev client_address : String
client_address = "1.2.3.4"

abbrev proxy_address : String
proxy_address = "5.6.7.8"

proxy_ne : proxy_address ≢ client_address
proxy_ne e = elim (other ((str_eq_iff proxy_address client_address).1 e)) [ ]
  where
    other : false ≡ true → ⊥
    other h = cc

penalty_missed_example :
    capacity_of limits "1.2.3.4" 31000
      (run strings test upper stamp show texts express tls limits floats client json utf8 60
        describe traffic world).limiter
    ≡ 10
penalty_missed_example =
    penalty_missed strings test upper stamp show texts express tls limits floats client json utf8 60
      describe traffic "1.2.3.4" world 31000 tt (unfold lookup in refl) (unfold lookup in refl)
      (proxy_ne, (tt, (proxy_ne, (tt, (tt, tt)))))
