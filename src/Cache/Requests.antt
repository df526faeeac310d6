-- ===== src/Cache/Requests.antt =====
-- The middleware of the cache (src/cache/cacheMiddleware.js). A body is the list of its bytes; `utf8`
-- is the text that `toString('utf8')` makes of them. The lookup of the service throws no exception,
-- so that the `catch` of the middleware, which passes the request on, has no case here.
use Prim.Native.String.{◌++◌ as str_append}
use text.Mathlib.Text.{starts_with}
use sentinel_adc.Base.{
  ℕ, String, Bool, false, not, ◌&&◌, ◌||◌, Option, none, some, List, [], ◌∷◌, ◌++◌, Dict, insert,
  remove, ◌==◌, str_eq, if◌then◌else◌,
}
use sentinel_adc.Cache.{
  Cached, CacheService, Redis, Json, is_active, get, set, record_hit, record_miss, record_bypass,
}

-- What the middleware reads of a request.
pub record Request : Type 0 where
  pub method : String
  pub original_url : String
  pub cache_control : Option String
  pub pragma : Option String

-- The answer of a backend: its chunks, as `write` and `end` are given them.
pub record Answer : Type 0 where
  pub status_code : ℕ
  pub headers : Dict String
  pub chunks : List (List ℕ)

is_no_cache : Option String → Bool
is_no_cache none = false
is_no_cache (some v) = str_eq v "no-cache"

unfoldable pub is_cacheable : Request → Bool
unfolding is_no_cache
is_cacheable req =
    str_eq req.method "GET"
    && not (starts_with req.original_url "/api")
    && not (is_no_cache req.cache_control || is_no_cache req.pragma)

abbrev pub cache_key : Request → String
cache_key req = str_append "sentinel:cache:" req.original_url

-- `bypass` and `miss` go on to the next handler; a hit is answered at once.
pub data Lookup : Type 0 where
  bypass miss : Lookup
  hit : Cached → Lookup

unfoldable pub concat : List (List ℕ) → List ℕ
concat [] = []
concat (c ∷ cs) = c ++ concat cs

-- The headers of a hit: the cached ones but two, set one by one, then the status of the cache and the
-- latency.
apply_headers : (String → String) → Dict String → Dict String → Dict String
apply_headers to_lower [] out = out
apply_headers to_lower ((name, value) ∷ hs) out = apply_headers to_lower hs (
    if not (str_eq (to_lower name) "connection") && not (str_eq (to_lower name) "content-length")
    then insert name value out
    else out)

unfoldable pub hit_headers : (String → String) → String → Cached → Dict String → Dict String
unfolding apply_headers
hit_headers to_lower latency_text c out =
    insert "X-Cache-Latency" latency_text
      (insert "x-cache" "HIT" (apply_headers to_lower c.headers out))

abbrev pub hit_status : Cached → ℕ
hit_status c = if c.status == 0 then 200 else c.status

-- What is stored of an answer.
unfoldable pub to_cache : (List ℕ → String) → Answer → Cached
unfolding concat
to_cache utf8 a = record {
  status = a.status_code;
  headers = remove "x-cache" a.headers;
  body = utf8 (concat a.chunks);
}

module _ {S : Type 0} (client : Redis S) (json : Json) (utf8 : List ℕ → String) (ttl : ℕ) where
  unfoldable pub looked_up : ℕ → Option Cached × CacheService S → Lookup × CacheService S
  unfolding record_hit
  looked_up latency (none, s) = (miss, s)
  looked_up latency (some c, s) = (hit c, record s { stats = record_hit latency s.stats })

  -- A request arrives.
  unfoldable pub arrive : Request → ℕ → ℕ → CacheService S → Lookup × CacheService S
  unfolding looked_up get record_bypass
  arrive req now latency s =
      if is_active s && is_cacheable req
      then looked_up latency (get client json (cache_key req) now s)
      else (bypass, record s { stats = record_bypass s.stats })

  -- The backend's answer to a request that missed ends: the wrapped `end`.
  unfoldable pub finish : Request → Answer → ℕ → ℕ → CacheService S → CacheService S
  unfolding to_cache set record_miss
  finish req a now latency s =
      let s' =
        if a.status_code == 200
        then set client json (cache_key req) (to_cache utf8 a) ttl now s
        else s in
      record s' { stats = record_miss latency s'.stats }
