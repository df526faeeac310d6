-- ===== src/Tests/Security.antt =====
-- Runs of the security filters and of the anomaly detector.
use sentinel_adc.Base.{
  ℕ, ◌+◌, ◌-◌, ◌*◌, ◌/◌, ◌≡◌, ◌≢◌, refl, String, Bool, true, false, none, some, [], ◌∷◌, Dict,
  lookup, IsMap, str_eq, str_eq_iff, leb, ◌==◌, max, if◌then◌else◌, All,
}
use sentinel_adc.Http.{Request, Strings, text, get_client_ip, header, truthy, add_proxy_headers}
use sentinel_adc.Http.Forwarding.{IsSplit, client_ip-add_proxy_headers}
use sentinel_adc.Security.{Stamp, Regex, is_blocked}
use sentinel_adc.Security.Log.{Call, entries}
use sentinel_adc.Security.Waf.Scanning.{Harmless, seen_texts}
use sentinel_adc.Security.Gate.{firewall, Decides, NoScanner, firewall-Decides, waf-Decides}
use sentinel_adc.Security.Waf.{inspect}
use sentinel_adc.RateLimit.{RateLimiter}
use sentinel_adc.Security.Anomaly.{Floats, IpStats, Anomaly, AnomalyDetector, evaluate_windows}
use sentinel_adc.Security.Anomaly.Enforcing.{flagged, penalty, penalties-evaluate_windows}

-- Texts in these runs hold no separators.
abbrev pub strings : Strings
strings = record { split = λ s separator. "1.2.3.4" ∷ []; trim = λ s. s }

abbrev pub stamp : Stamp
stamp = record { id = "1"; timestamp = "now" }

abbrev pub request : String → Request
request agent = record {
  method = "GET";
  original_url = "/a";
  url = "/a";
  path = "/a";
  protocol = "http";
  secure = false;
  headers = ("host", "shop") ∷ ("user-agent", agent) ∷ [];
  remote_address = some "1.2.3.4";
  ip = none;
  query = text "q";
  body = none;
}

-- A pattern matches the text that is its source.
abbrev pub test : Regex → String → Bool
test r s = str_eq r.source s

firewall-Decides_example :
    Decides strings test
      (λ s. s)
      stamp
      ((is_blocked (get_client_ip strings (request "nmap")) ("9.9.9.9" ∷ []) ≡ false)
        × ((truthy (header "host" (request "nmap")) ≢ none)
            × NoScanner strings test
                (λ s. s)
                stamp
                (truthy (header "user-agent" (request "nmap")))))
      (request "nmap")
      []
      (firewall strings test (λ s. s) stamp ("9.9.9.9" ∷ []) (request "nmap") [])
firewall-Decides_example =
    firewall-Decides strings test (λ s. s) stamp ("9.9.9.9" ∷ []) (request "nmap") []

-- A request whose body the parsers have made.
abbrev with_script : Request
with_script = record (request "curl") { body = some (text "javascript:") }

waf-Decides_example :
    Decides strings test
      (λ s. s)
      stamp
      (All (Harmless test) (seen_texts with_script))
      with_script
      []
      (inspect strings test (λ s. s) stamp with_script [])
waf-Decides_example = waf-Decides strings test (λ s. s) stamp with_script []

abbrev call : String → Call
call kind = record { stamp = stamp; kind = kind; request = request "curl"; details = [] }

-- Whole numbers in place of floating-point ones.
abbrev pub floats : Floats ℕ
floats = record {
  of_nat = λ n. n;
  add = λ a b. a + b;
  sub = λ a b. a - b;
  mul = λ a b. a * b;
  div = λ a b. a / b;
  max = max;
  sqrt = λ a. a;
  round = λ a. a;
  ge = λ a b. leb b a;
  is_zero = λ a. a == 0;
}

abbrev stats : IpStats ℕ
stats = record {
  ewma = 10;
  variance = 4;
  window_count = 200;
  window_start = 0;
  total_requests = 300;
  total_anomalies = 0;
  last_z_score = 0;
  last_flagged = none;
}

abbrev pub detector : Dict (IpStats ℕ) → AnomalyDetector ℕ
detector entries = record {
  enabled = true;
  z_threshold = 3;
  auto_enforce = true;
  penalty_max_requests = 10;
  penalty_window_ms = 300000;
  ip_stats = entries;
  anomalies = [];
}

abbrev pub limiter : RateLimiter
limiter = record { memory_buckets = []; penalized_ips = [] }

abbrev pub describe : Anomaly ℕ → Dict String
describe a = ("ip", a.ip) ∷ []

busy : IsMap (("1.2.3.4", stats) ∷ [])
unfolding lookup
busy = (refl, tt)

penalties-evaluate_windows_example :
    lookup "1.2.3.4"
      (evaluate_windows floats strings describe stamp 10000
        (detector (("1.2.3.4", stats) ∷ []))
        []
        limiter).2.penalized_ips
    ≡ (if flagged floats
          (detector (("1.2.3.4", stats) ∷ []))
          10000
          "1.2.3.4"
          (lookup "1.2.3.4" (("1.2.3.4", stats) ∷ []))
        then some (penalty floats (detector (("1.2.3.4", stats) ∷ [])) 10000)
        else lookup "1.2.3.4" limiter.penalized_ips)
penalties-evaluate_windows_example =
    penalties-evaluate_windows floats strings describe stamp (detector (("1.2.3.4", stats) ∷ []))
      10000 "1.2.3.4" [] limiter busy

one_hop : IsSplit strings (get_client_ip strings (request "curl"))
unfolding get_client_ip lookup
one_hop = record { chain = λ s t. refl; whole = refl; trimmed = refl }

address : get_client_ip strings (request "curl") ≢ ""
unfolding get_client_ip lookup
address e = elim (str_ne ((str_eq_iff "1.2.3.4" "").1 e)) [ ]
  where
    str_ne : false ≡ true → ⊥
    str_ne h = cc

abbrev outgoing : Request
outgoing = record (request "curl") {
  headers = add_proxy_headers strings none none (request "curl") [];
}

client_ip-add_proxy_headers_example :
    get_client_ip strings outgoing ≡ get_client_ip strings (request "curl")
client_ip-add_proxy_headers_example =
    client_ip-add_proxy_headers strings none none (request "curl") outgoing [] address one_hop refl
