-- ===== src/Cache/Storing.antt =====
-- What the cache gives back of what it was given.
use sentinel_adc.Base.{
  ℕ, ◌+◌, ◌*◌, ◌≤◌, ◌<◌, ◌≡◌, refl, String, Bool, true, false, ◌||◌, Option, none, some, [], ◌∷◌,
  arith, Dict, lookup, remove, lookup-insert, lookup-remove, leb, ltb, str_eq, str_eq_iff,
  str_eq_refl, if◌then◌else◌, Bool-cases, inl, inr,
}
use sentinel_adc.Cache.{
  Cached, Entry, CacheService, Redis, Json, Reply, failed, replied, is_active, memory_get,
  memory_set, purge, get, set,
}

-- The abstract cache: what a reader sees under a key at a time.
abbrev pub visible : Option Entry → ℕ → Option Cached
visible none t = none
visible (some e) t = if ltb e.expires_at t then none else some e.value

abbrev pub view : Dict Entry → String → ℕ → Option Cached
view m key t = visible (lookup key m) t

lookup-purge :
    (test : String → Bool) (j : String) (m : Dict Entry)
    → lookup j (purge test m).1 ≡ (if test j then none else lookup j m)
unfolding lookup purge
lookup-purge test j [] = ground arith
lookup-purge test j ((k, e) ∷ m) = elim (Bool-cases (str_eq k j)) [
  | inl same ↦
      let p : k ≡ j = (str_eq_iff k j).0 same in
      rw p (ground (arith, str_eq_refl j, lookup-purge test j m))
  | inr other ↦ ground (arith, lookup-purge test j m)
]

memory_get-visible :
    (key : String) (now : ℕ) (m : Dict Entry) → (memory_get key now m).0 ≡ view m key now
unfolding memory_get
memory_get-visible key now m = ground arith

view-memory_get :
    (key j : String) (now t : ℕ) (m : Dict Entry)
    → now ≤ t
    → view (memory_get key now m).1 j t ≡ view m j t
unfolding memory_get
view-memory_get key j now t m h = ground (arith, lookup-remove key j m, str_eq_iff key j)

-- The map in memory implements a map whose entries vanish when their time is over: a lookup gives what
-- is visible now and hides nothing that would be visible later; storing makes a value visible under its
-- key until its time is over, deleting and purging hide the keys that they name, and nothing else
-- changes.
pub memory-refines :
    (key j : String) (value : Cached) (ttl now t : ℕ) (test : String → Bool) (m : Dict Entry)
    → now ≤ t
    → ((memory_get key now m).0 ≡ view m key now)
      × (view (memory_get key now m).1 j t ≡ view m j t)
      × (view (memory_set key value ttl now m) j t ≡ (
          if str_eq key j
          then (if leb t (now + ttl * 1000) then some value else none)
          else view m j t))
      × (view (remove key m) j t ≡ (if str_eq key j then none else view m j t))
      × (view (purge test m).1 j t ≡ (if test j then none else view m j t))
unfolding memory_set
memory-refines key j value ttl now t test m h = (
  memory_get-visible key now m,
  view-memory_get key j now t m h,
  ground (arith, lookup-insert key j (record { value = value; expires_at = now + ttl * 1000 }) m),
  ground (arith, lookup-remove key j m),
  ground (arith, lookup-purge test j m),
)

-- What the service relies on: a text that Redis has accepted is there until its time is over.
pub record IsStore {S : Type 0} (client : Redis S) : Type 0 where
  pub stored :
      (key text : String) (ttl now later : ℕ) (r r' : S)
      → client.set key text ttl r now ≡ replied r'
      → later < now + ttl * 1000
      → client.get key r' later ≡ replied (some text)

-- And the text of JSON of this response is not empty and gives it back.
pub record IsFaithful (json : Json) (v : Cached) : Type 0 where
  pub parse-stringify : json.parse (json.stringify v) ≡ some v
  pub nonempty : str_eq (json.stringify v) "" ≡ false

abbrev pub accepted {ℓ} : {A : Type ℓ} → Reply A → Bool
accepted failed = false
accepted (replied r) = true

module _ {S : Type 0} (client : Redis S) (json : Json) where
  get-set_redis :
      (key : String) (v : Cached) (ttl now later : ℕ) (s : CacheService S) (r : S)
      → IsStore client
      → IsFaithful json v
      → is_active s ≡ true
      → s.use_memory_fallback ≡ false
      → client.set key (json.stringify v) ttl s.redis now ≡ replied r
      → later < now + ttl * 1000
      → (get client json key later (set client json key v ttl now s)).0 ≡ some v
  unfolding get set
  get-set_redis key v ttl now later s r store faithful on redis e h =
      let back = store.stored key (json.stringify v) ttl now later s.redis r e h in
      let same = faithful.parse-stringify in let text = faithful.nonempty in ground arith

  get-set_memory :
      (key : String) (v : Cached) (ttl now later : ℕ) (s : CacheService S)
      → is_active s ≡ true
      → s.use_memory_fallback ≡ true
      → later < now + ttl * 1000
      → (get client json key later (set client json key v ttl now s)).0 ≡ some v
  unfolding get set
  get-set_memory key v ttl now later s on memory h = ground (
    arith,
    lookup-insert key key (record { value = v; expires_at = now + ttl * 1000 }) s.memory_cache,
    str_eq_refl key,
  )

  accepted-replied : (r : Reply S) → accepted r ≡ true → (x : S) × (r ≡ replied x)
  accepted-replied failed h = cc
  accepted-replied (replied x) h = (x, refl)

  -- While the cache is active, a response that it has stored is given back by a later lookup of its key
  -- before its time to live is over, whether the map in memory is in use or a Redis that accepted it.
  pub get-set :
      (key : String) (v : Cached) (ttl now later : ℕ) (s : CacheService S)
      → IsStore client
      → IsFaithful json v
      → is_active s ≡ true
      → (s.use_memory_fallback || accepted (client.set key (json.stringify v) ttl s.redis now))
        ≡ true
      → later < now + ttl * 1000
      → (get client json key later (set client json key v ttl now s)).0 ≡ some v
  get-set key v ttl now later s store faithful on ok h = elim (Bool-cases s.use_memory_fallback) [
    | inl memory ↦ get-set_memory key v ttl now later s on memory h
    | inr redis ↦
        let (r, e) =
          accepted-replied (client.set key (json.stringify v) ttl s.redis now) (ground arith) in
        get-set_redis key v ttl now later s r store faithful on redis e h
  ]
