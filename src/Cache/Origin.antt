-- ===== src/Cache/Origin.antt =====
-- Where the response of a hit comes from.
use text.Mathlib.TextLemmas.{append_cancel_left}
use sentinel_adc.Base.{
  ℕ, ◌+◌, ◌*◌, ◌≤◌, ◌≡◌, refl, ap, sym, subst, ◌∙◌, String, Bool, true, false, ◌&&◌, Option, none,
  some, List, [], ◌∷◌, arith, Dict, lookup, lookup-insert, lookup-remove, ◌==◌, str_eq, str_eq_iff,
  if◌then◌else◌, Bool-cases, inl, inr, Option-cases, In, here, there,
}
use sentinel_adc.Cache.{
  Cached, Entry, CacheService, Redis, Json, is_active, memory_get, memory_set, get, set,
}
use sentinel_adc.Cache.Requests.{
  Request, Answer, hit, arrive, finish, to_cache, cache_key, is_cacheable, looked_up,
}

-- Requests that arrive, and answers that end, in any order; `now` and `latency` are what the handlers
-- read of the clock and the timer.
pub data Event : Type 0 where
  arrives : Request → ℕ → ℕ → Event
  finishes : Request → Answer → ℕ → ℕ → Event

-- The answer of one of these events was stored as this response for this URL.
pub record Stored (utf8 : List ℕ → String) (ttl : ℕ) (es : List Event) (key : String) (e : Entry)
    : Type 0 where
  pub request : Request
  pub answer : Answer
  pub time : ℕ
  pub latency : ℕ
  pub happened : In (finishes request answer time latency) es
  pub of_key : cache_key request ≡ key
  pub success : answer.status_code ≡ 200
  pub response : e.value ≡ to_cache utf8 answer
  pub until : e.expires_at ≡ time + ttl * 1000

module _ {S : Type 0} (client : Redis S) (json : Json) (utf8 : List ℕ → String) (ttl : ℕ) where
  unfoldable pub step : Event → CacheService S → CacheService S
  unfolding arrive finish
  step (arrives req now latency) s = (arrive client json utf8 ttl req now latency s).1
  step (finishes req a now latency) s = finish client json utf8 ttl req a now latency s

  -- The latest event comes first.
  unfoldable pub run : List Event → CacheService S → CacheService S
  run [] s = s
  run (e ∷ es) s = step e (run es s)

  -- Every entry in memory was stored by one of the events.
  Sourced : List Event → Dict Entry → Type 0
  Sourced es m = (key : String) (e : Entry) → lookup key m ≡ some e → Stored utf8 ttl es key e

  later-Stored :
      (v : Event) (es : List Event) (key : String) (e : Entry)
      → Stored utf8 ttl es key e
      → Stored utf8 ttl (v ∷ es) key e
  later-Stored v es key e st = record {
    request = st.request;
    answer = st.answer;
    time = st.time;
    latency = st.latency;
    happened = there st.happened;
    of_key = st.of_key;
    success = st.success;
    response = st.response;
    until = st.until;
  }

  memory_get-Sourced :
      (es : List Event) (key : String) (now : ℕ) (m : Dict Entry)
      → Sourced es m
      → Sourced es (memory_get key now m).1
  unfolding Sourced memory_get
  memory_get-Sourced es key now m h j e found =
      h j e (ground (arith, lookup-remove key j m, str_eq_iff key j))

  memory_set-Sourced :
      (req : Request) (a : Answer) (now latency : ℕ) (es : List Event) (m : Dict Entry)
      → a.status_code ≡ 200
      → Sourced es m
      → Sourced
          (finishes req a now latency ∷ es)
          (memory_set (cache_key req) (to_cache utf8 a) ttl now m)
  unfolding Sourced memory_set
  memory_set-Sourced req a now latency es m ok h j e found =
      elim (Bool-cases (str_eq (cache_key req) j)) [
        | inl same ↦
            let new : Entry = record { value = to_cache utf8 a; expires_at = now + ttl * 1000 } in
            let eq : new ≡ e = ground (arith, lookup-insert (cache_key req) j new m) in
            record {
              request = req;
              answer = a;
              time = now;
              latency = latency;
              happened = here;
              of_key = (str_eq_iff (cache_key req) j).0 same;
              success = ok;
              response = sym (ap (λ x. x.value) eq);
              until = sym (ap (λ x. x.expires_at) eq);
            }
        | inr other ↦ later-Stored _ es j e (
            h j e (
              ground (
                arith,
                lookup-insert (cache_key req) j
                    (record { value = to_cache utf8 a; expires_at = now + ttl * 1000 }) m,
              )))
      ]

  -- What the map in memory is after a lookup, an arrival and the end of an answer.
  memory_cache-get :
      (key : String) (now : ℕ) (s : CacheService S)
      → (get client json key now s).1.memory_cache ≡ (
          if is_active s && s.use_memory_fallback
          then (memory_get key now s.memory_cache).1
          else s.memory_cache)
  unfolding get
  memory_cache-get key now s = ground arith

  looked_up-memory_cache :
      (latency : ℕ) (p : Option Cached × CacheService S)
      → (looked_up client json utf8 ttl latency p).1.memory_cache ≡ p.1.memory_cache
  unfolding looked_up
  looked_up-memory_cache latency (none, s) = refl
  looked_up-memory_cache latency (some c, s) = refl

  memory_cache-arrive :
      (req : Request) (now latency : ℕ) (s : CacheService S)
      → (arrive client json utf8 ttl req now latency s).1.memory_cache ≡ (
          if is_active s && is_cacheable req
          then (if is_active s && s.use_memory_fallback
              then (memory_get (cache_key req) now s.memory_cache).1
              else s.memory_cache)
          else s.memory_cache)
  unfolding arrive
  memory_cache-arrive req now latency s = elim (Bool-cases (is_active s && is_cacheable req)) [
    | inl asked ↦ rw asked (
        looked_up-memory_cache latency (get client json (cache_key req) now s)
        ∙ memory_cache-get (cache_key req) now s)
    | inr not_asked ↦ rw not_asked refl
  ]

  memory_cache-set :
      (key : String) (v : Cached) (now : ℕ) (s : CacheService S)
      → (set client json key v ttl now s).memory_cache ≡ (
          if is_active s && s.use_memory_fallback
          then memory_set key v ttl now s.memory_cache
          else s.memory_cache)
  unfolding set
  memory_cache-set key v now s = ground arith

  memory_cache-finish :
      (req : Request) (a : Answer) (now latency : ℕ) (s : CacheService S)
      → (finish client json utf8 ttl req a now latency s).memory_cache ≡ (
          if a.status_code == 200
          then (if is_active s && s.use_memory_fallback
              then memory_set (cache_key req) (to_cache utf8 a) ttl now s.memory_cache
              else s.memory_cache)
          else s.memory_cache)
  unfolding finish
  memory_cache-finish req a now latency s = elim (Bool-cases (a.status_code == 200)) [
    | inl ok ↦ rw ok (memory_cache-set (cache_key req) (to_cache utf8 a) now s)
    | inr other ↦ rw other refl
  ]

  if-Sourced :
      (b : Bool) (es : List Event) (m m' : Dict Entry)
      → Sourced es m
      → Sourced es m'
      → Sourced es (if b then m else m')
  if-Sourced true es m m' h h' = h
  if-Sourced false es m m' h h' = h'

  weaken-Sourced :
      (v : Event) (es : List Event) (m : Dict Entry) → Sourced es m → Sourced (v ∷ es) m
  unfolding Sourced
  weaken-Sourced v es m h j e found = later-Stored v es j e (h j e found)

  none-Sourced : (m : Dict Entry) → m ≡ [] → Sourced [] m
  unfolding Sourced lookup
  none-Sourced m empty j e found = elim (all_none (ap (lookup j) (sym empty) ∙ found)) [ ]
    where
      all_none : none ≡ some e → ⊥
      all_none h = cc

  if_success-Sourced :
      (b : Bool) (req : Request) (a : Answer) (now latency : ℕ) (es : List Event) (m : Dict Entry)
      → Sourced es m
      → Sourced (finishes req a now latency ∷ es) (
          if a.status_code == 200
          then (if b then memory_set (cache_key req) (to_cache utf8 a) ttl now m else m)
          else m)
  if_success-Sourced b req a now latency es m h = elim (Bool-cases (a.status_code == 200)) [
    | inl ok ↦ rw ok (
        if-Sourced b _ _ _ (memory_set-Sourced req a now latency es m (ground arith) h)
          (weaken-Sourced _ es m h))
    | inr other ↦ rw other (weaken-Sourced _ es m h)
  ]

  all-Sourced :
      (es : List Event) (s : CacheService S)
      → s.memory_cache ≡ []
      → Sourced es (run es s).memory_cache
  unfolding run step
  all-Sourced [] s empty = none-Sourced s.memory_cache empty
  all-Sourced (arrives req now latency ∷ es) s empty =
      let ih = all-Sourced es s empty in
      subst (Sourced (arrives req now latency ∷ es))
        (sym (memory_cache-arrive req now latency (run es s)))
        (weaken-Sourced _ es _ (
          if-Sourced (is_active (run es s) && is_cacheable req) es _ _
            (if-Sourced (is_active (run es s) && (run es s).use_memory_fallback) es _ _
              (memory_get-Sourced es (cache_key req) now _ ih) ih)
            ih))
  all-Sourced (finishes req a now latency ∷ es) s empty =
      let ih = all-Sourced es s empty in
      subst (Sourced (finishes req a now latency ∷ es))
        (sym (memory_cache-finish req a now latency (run es s)))
        (if_success-Sourced _ req a now latency es _ ih)

  get-looked_up :
      (latency : ℕ) (p : Option Cached × CacheService S) (c : Cached)
      → (looked_up client json utf8 ttl latency p).0 ≡ hit c
      → p.0 ≡ some c
  unfolding looked_up
  get-looked_up latency (none, s) c h = cc
  get-looked_up latency (some v, s) c h = cc

  memory_get-entry :
      (key : String) (now : ℕ) (m : Dict Entry) (c : Cached)
      → (memory_get key now m).0 ≡ some c
      → (e : Entry) × (lookup key m ≡ some e) × (e.value ≡ c) × (now ≤ e.expires_at)
  unfolding memory_get
  memory_get-entry key now m c h = elim (Option-cases (lookup key m)) [
    | inl absent ↦ (ground arith)
    | inr (e, present) ↦ (e, present, ground arith, ground arith)
  ]

  found-get :
      (key : String) (now : ℕ) (s : CacheService S) (c : Cached)
      → s.use_memory_fallback ≡ true
      → (get client json key now s).0 ≡ some c
      → (memory_get key now s.memory_cache).0 ≡ some c
  unfolding get
  found-get key now s c memory h = ground arith

  hit-entry :
      (req : Request) (now latency : ℕ) (s : CacheService S) (c : Cached)
      → s.use_memory_fallback ≡ true
      → (arrive client json utf8 ttl req now latency s).0 ≡ hit c
      → (is_cacheable req ≡ true) × ((memory_get (cache_key req) now s.memory_cache).0 ≡ some c)
  unfolding arrive
  hit-entry req now latency s c memory h = elim (Bool-cases (is_active s && is_cacheable req)) [
    | inl asked ↦ (
      ground arith,
      found-get (cache_key req) now s c memory
          (get-looked_up latency (get client json (cache_key req) now s) c (rw asked at h)),
    )
    | inr not_asked ↦ ground arith
  ]

  -- A request that is answered from the map in memory, after any requests and answers, asks for no
  -- fresh copy, and what it is given is exactly the stored form of an earlier answer with status 200 to
  -- a request for the same URL, whose time to live is not over.
  pub hit-stored :
      (req : Request) (now latency : ℕ) (es : List Event) (s : CacheService S) (c : Cached)
      → s.memory_cache ≡ []
      → (run es s).use_memory_fallback ≡ true
      → (arrive client json utf8 ttl req now latency (run es s)).0 ≡ hit c
      → (is_cacheable req ≡ true)
        × (r : Request) × (a : Answer) × (time : ℕ) × (taken : ℕ) × In (finishes r a time taken) es
        × (r.original_url ≡ req.original_url)
        × (a.status_code ≡ 200)
        × (c ≡ to_cache utf8 a)
        × (now ≤ time + ttl * 1000)
  unfolding Sourced
  hit-stored req now latency es s c empty memory h =
      let (cacheable, found) = hit-entry req now latency (run es s) c memory h in
      let (e, present, value, alive) =
        memory_get-entry (cache_key req) now (run es s).memory_cache c found in
      let st = all-Sourced es s empty (cache_key req) e present in
      (
        cacheable,
        st.request,
        st.answer,
        st.time,
        st.latency,
        st.happened,
        append_cancel_left "sentinel:cache:" st.request.original_url req.original_url st.of_key,
        st.success,
        sym value ∙ st.response,
        subst (λ t. now ≤ t) st.until alive,
      )
