-- ===== src/Tests/Cache.antt =====
-- Runs of the cache: a Redis that keeps texts with the end of their time.
use sentinel_adc.Base.{
  ℕ, ◌+◌, ◌*◌, ◌≤◌, ◌<◌, ◌≡◌, refl, subst, String, Bool, true, false, Option, none, some, List, [],
  ◌∷◌, arith, Dict, lookup, insert, remove, lookup-insert, str_eq, str_eq_refl, ltb, leb,
  if◌then◌else◌, In,
}
use sentinel_adc.Cache.{
  Cached, CacheService, Redis, Json, failed, replied, memory_get, memory_set, purge, get, set,
}
use sentinel_adc.Cache.Requests.{Request, Answer, hit, arrive, finish, to_cache, is_cacheable}
use sentinel_adc.Cache.Storing.{view, memory-refines, IsStore, get-set}
use sentinel_adc.Cache.Origin.{Event, arrives, finishes, step, run, hit-stored}

abbrev pub Kept : Type 0
Kept = Dict (String × ℕ)

abbrev pub fresh : ℕ → Option (String × ℕ) → Option String
fresh now none = none
fresh now (some (text, until)) = if ltb now until then some text else none

abbrev pub client : Redis Kept
client = record {
  get = λ key s now. replied (fresh now (lookup key s));
  set = λ key text ttl s now. replied (insert key (text, now + ttl * 1000) s);
  del = λ keys s. failed;
  keys = λ pattern s. replied [];
  flushdb = λ s. replied [];
}

abbrev page : Cached
page = record { status = 200; headers = []; body = "hello" }

abbrev pub json : Json
json = record {
  stringify = λ v. v.body;
  parse = λ text. some (record { status = 200; headers = []; body = text });
}

abbrev pub service : Bool → CacheService Kept
service memory = record {
  enabled = true;
  client_ready = true;
  redis = [];
  use_memory_fallback = memory;
  memory_cache = [];
  stats = record {
    hits = 0;
    misses = 0;
    total_hit_latency = 0;
    total_miss_latency = 0;
    total_bypasses = 0;
  };
}

client-IsStore : IsStore client
client-IsStore = record {
  stored = λ key text ttl now later r r' accepted_now early.
      kept key text ttl now later r r' accepted_now early;
}
  where
    kept :
        (key text : String) (ttl now later : ℕ) (r r' : Kept)
        → client.set key text ttl r now ≡ replied r'
        → later < now + ttl * 1000
        → client.get key r' later ≡ replied (some text)
    kept key text ttl now later r r' accepted_now early =
        let e : insert key (text, now + ttl * 1000) r ≡ r' = cc in
        subst (λ q. client.get key q later ≡ replied (some text)) e
          (ground (arith, lookup-insert key key (text, now + ttl * 1000) r, str_eq_refl key))

memory-refines_example :
    ((memory_get "a" 5 (("a", record { value = page; expires_at = 3 }) ∷ [])).0
      ≡ view (("a", record { value = page; expires_at = 3 }) ∷ []) "a" 5)
    × (view (memory_get "a" 5 (("a", record { value = page; expires_at = 3 }) ∷ [])).1 "b" 6
        ≡ view (("a", record { value = page; expires_at = 3 }) ∷ []) "b" 6)
    × (view (memory_set "a" page 2 5 (("a", record { value = page; expires_at = 3 }) ∷ [])) "b" 6
        ≡ (if str_eq "a" "b"
            then (if leb 6 (5 + 2 * 1000) then some page else none)
            else view (("a", record { value = page; expires_at = 3 }) ∷ []) "b" 6))
    × (view (remove "a" (("a", record { value = page; expires_at = 3 }) ∷ [])) "b" 6 ≡ (
        if str_eq "a" "b"
        then none
        else view (("a", record { value = page; expires_at = 3 }) ∷ []) "b" 6))
    × (view (purge (λ k. true) (("a", record { value = page; expires_at = 3 }) ∷ [])).1 "b" 6
        ≡ (if true then none else view (("a", record { value = page; expires_at = 3 }) ∷ []) "b" 6))
memory-refines_example =
    memory-refines "a" "b" page 2 5 6 (λ k. true)
      (("a", record { value = page; expires_at = 3 }) ∷ []) (omega arith)

get-set_example :
    (get client json "a" 900 (set client json "a" page 1 0 (service false))).0 ≡ some page
get-set_example =
    get-set client json "a" page 1 0 900 (service false) client-IsStore
      (record { parse-stringify = refl; nonempty = refl }) refl refl (omega arith)

abbrev request : Request
request = record { method = "GET"; original_url = "/index"; cache_control = none; pragma = none }

abbrev answer : Answer
answer = record { status_code = 200; headers = []; chunks = [] }

abbrev events : List Event
events = finishes request answer 10 1 ∷ arrives request 5 1 ∷ []

abbrev pub utf8 : List ℕ → String
utf8 bytes = ""

hit_now :
    (arrive client json utf8 60 request 20 1 (run client json utf8 60 events (service true))).0
    ≡ hit (to_cache utf8 answer)
unfolding arrive run to_cache finish is_cacheable step lookup insert
hit_now = refl

memory_still : (run client json utf8 60 events (service true)).use_memory_fallback ≡ true
unfolding run finish arrive is_cacheable step lookup
memory_still = refl

hit-stored_example :
    (is_cacheable request ≡ true)
    × (r : Request) × (a : Answer) × (time : ℕ) × (taken : ℕ) × In (finishes r a time taken) events
    × (r.original_url ≡ "/index")
    × (a.status_code ≡ 200)
    × (to_cache utf8 answer ≡ to_cache utf8 a)
    × (20 ≤ time + 60 * 1000)
hit-stored_example =
    hit-stored client json utf8 60 request 20 1 events (service true) (to_cache utf8 answer) refl
      memory_still hit_now
