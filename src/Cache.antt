-- ===== src/Cache.antt =====
-- The response cache (src/cache/cacheService.js). The Redis client and JSON are arguments: what the
-- client's calls give, an exception included, and the two conversions. A latency is in hundredths of
-- a millisecond and a hit ratio in hundredths of a percent.
pub mod Storing
pub mod Requests
pub mod Origin
pub mod Counting
use sentinel_adc.Base.{
  ℕ, suc, ◌+◌, ◌*◌, String, Bool, true, false, not, ◌&&◌, ◌||◌, Option, none, some, List, [], ◌∷◌,
  min, Dict, lookup, insert, remove, leb, ltb, ◌==◌, str_eq, if◌then◌else◌, length,
}
use sentinel_adc.Health.{round_div}

-- The cached object: status, headers and body.
pub record Cached : Type 0 where
  pub status : ℕ
  pub headers : Dict String
  pub body : String

pub record Entry : Type 0 where
  pub value : Cached
  pub expires_at : ℕ

pub record Stats : Type 0 where
  pub hits : ℕ
  pub misses : ℕ
  pub total_hit_latency : ℕ
  pub total_miss_latency : ℕ
  pub total_bypasses : ℕ

-- The service over a Redis whose state is of the type `S`; `client_ready` is
-- `this.client && this.client.status === 'ready'`.
pub record CacheService (S : Type 0) : Type 0 where
  pub enabled : Bool
  pub client_ready : Bool
  pub redis : S
  pub use_memory_fallback : Bool
  pub memory_cache : Dict Entry
  pub stats : Stats

-- What a call of the client gives: an exception or a value.
pub data Reply {ℓ} (A : Type ℓ) : Type ℓ where
  failed : Reply A
  replied : A → Reply A

-- The calls of the client; the last number is the time.
pub record Redis (S : Type 0) : Type 0 where
  pub get : String → S → ℕ → Reply (Option String)
  pub set : String → String → ℕ → S → ℕ → Reply S
  pub del : List String → S → Reply S
  pub keys : String → S → Reply (List String)
  pub flushdb : S → Reply S

pub record Json : Type 0 where
  pub stringify : Cached → String
  pub parse : String → Option Cached

unfoldable pub retry_strategy : {S : Type 0} → ℕ → CacheService S → Option ℕ × CacheService S
retry_strategy times s =
    if ltb 3 times
    then (none, record s { use_memory_fallback = true })
    else (some (min (times * 100) 2000), s)

-- `connect`: the configuration says `offline`, or the constructor of the client throws, or neither.
unfoldable pub connect : {S : Type 0} → Bool → Bool → CacheService S → CacheService S
connect offline throws s = if offline || throws then record s { use_memory_fallback = true } else s

-- The client's events `connect` and `error`.
unfoldable pub on_connect : {S : Type 0} → CacheService S → CacheService S
on_connect s = record s { use_memory_fallback = false }

unfoldable pub on_error : {S : Type 0} → CacheService S → CacheService S
on_error s = record s { use_memory_fallback = true }

-- `close`, by whether there is a client and it quits: such a client is not ready any more.
unfoldable pub close : {S : Type 0} → Bool → CacheService S → CacheService S
close quits s = if quits then record s { client_ready = false } else s

abbrev pub is_active : {S : Type 0} → CacheService S → Bool
is_active s = s.enabled && (s.use_memory_fallback || s.client_ready)

-- The value of a key in memory, and the map without the key if its time is over.
memory_found : String → ℕ → Option Entry → Dict Entry → Option Cached × Dict Entry
memory_found key now none m = (none, m)
memory_found key now (some e) m =
    if ltb e.expires_at now then (none, remove key m) else (some e.value, m)

unfoldable pub memory_get : String → ℕ → Dict Entry → Option Cached × Dict Entry
unfolding memory_found
memory_get key now m = memory_found key now (lookup key m) m

unfoldable pub memory_set : String → Cached → ℕ → ℕ → Dict Entry → Dict Entry
memory_set key value ttl now m =
    insert key (record { value = value; expires_at = now + ttl * 1000 }) m

-- The keys that the compiled pattern matches are deleted; how many, and the rest.
unfoldable pub purge : (String → Bool) → Dict Entry → ℕ × Dict Entry
purge test [] = (0, [])
purge test ((key, e) ∷ m) =
    let (n, rest) = purge test m in if test key then (suc n, rest) else (n, (key, e) ∷ rest)

module _ {S : Type 0} (client : Redis S) (json : Json) where
  parsed : Reply (Option String) → Option Cached
  parsed failed = none
  parsed (replied none) = none
  parsed (replied (some text)) = if str_eq text "" then none else json.parse text

  -- `get`.
  unfoldable pub get : String → ℕ → CacheService S → Option Cached × CacheService S
  unfolding parsed memory_get
  get key now s =
      let (v, m) = memory_get key now s.memory_cache in
      if not (is_active s)
      then (none, s)
      else if s.use_memory_fallback
      then (v, record s { memory_cache = m })
      else (parsed (client.get key s.redis now), s)

  kept : Reply S → CacheService S → CacheService S
  kept failed s = s
  kept (replied r) s = record s { redis = r }

  -- `set`, with a time to live in seconds.
  unfoldable pub set : String → Cached → ℕ → ℕ → CacheService S → CacheService S
  unfolding kept memory_set
  set key value ttl now s =
      if not (is_active s)
      then s
      else if s.use_memory_fallback
      then record s { memory_cache = memory_set key value ttl now s.memory_cache }
      else kept (client.set key (json.stringify value) ttl s.redis now) s

  unfoldable pub delete : String → CacheService S → CacheService S
  unfolding kept
  delete key s =
      if not (is_active s)
      then s
      else if s.use_memory_fallback
      then record s { memory_cache = remove key s.memory_cache }
      else kept (client.del (key ∷ []) s.redis) s

  deleted : List String → Reply S → CacheService S → ℕ × CacheService S
  deleted keys failed s = (0, s)
  deleted keys (replied r) s = (length keys, record s { redis = r })

  purged : Reply (List String) → CacheService S → ℕ × CacheService S
  purged failed s = (0, s)
  purged (replied []) s = (0, s)
  purged (replied (k ∷ ks)) s = deleted (k ∷ ks) (client.del (k ∷ ks) s.redis) s

  memory_purged : Option (String → Bool) → CacheService S → Option (ℕ × CacheService S)
  memory_purged none s = none
  memory_purged (some test) s =
      let (n, m) = purge test s.memory_cache in some (n, record s { memory_cache = m })

  -- `invalidatePattern`; `compile` makes the regular expression of a pattern and its test, or throws,
  -- and `none` is that exception, which the method does not catch.
  unfoldable pub invalidate_pattern :
      (String → Option (String → Bool)) → String → CacheService S → Option (ℕ × CacheService S)
  unfolding memory_purged purged deleted purge
  invalidate_pattern compile pattern s =
      if not (is_active s)
      then some (0, s)
      else if s.use_memory_fallback
      then memory_purged (compile pattern) s
      else some (purged (client.keys pattern s.redis) s)

  unfoldable pub flush_all : CacheService S → CacheService S
  unfolding kept
  flush_all s =
      if not (is_active s)
      then s
      else if s.use_memory_fallback
      then record s { memory_cache = [] }
      else kept (client.flushdb s.redis) s

unfoldable pub record_hit : ℕ → Stats → Stats
record_hit latency st = record st {
  hits = st.hits + 1;
  total_hit_latency = st.total_hit_latency + latency;
}

unfoldable pub record_miss : ℕ → Stats → Stats
record_miss latency st = record st {
  misses = st.misses + 1;
  total_miss_latency = st.total_miss_latency + latency;
}

unfoldable pub record_bypass : Stats → Stats
record_bypass st = record st { total_bypasses = st.total_bypasses + 1 }

pub record Report : Type 0 where
  pub total_requests : ℕ
  pub hit_ratio : ℕ
  pub average_cache_latency : ℕ
  pub average_backend_latency : ℕ

-- `getStats`, without the fields that it copies.
unfoldable pub get_stats : Stats → Report
unfolding round_div
get_stats st =
    let total = st.hits + st.misses in
    record {
      total_requests = total;
      hit_ratio = if ltb 0 total then round_div (st.hits * 10000) total else 0;
      average_cache_latency = if ltb 0 st.hits then round_div st.total_hit_latency st.hits else 0;
      average_backend_latency =
          if ltb 0 st.misses then round_div st.total_miss_latency st.misses else 0;
    }
