-- ===== src/Cache/Counting.antt =====
-- What the counters of the cache count.
use sentinel_adc.Base.{
  ℕ, suc, ◌+◌, ◌*◌, ◌≤◌, ◌≡◌, ap, ◌∙◌, String, ◌&&◌, Option, none, some, List, [], ◌∷◌, arith, ltb,
  Bool-cases, inl, inr,
}
use sentinel_adc.Health.Window.{round_div-le}
use sentinel_adc.Cache.{
  Cached, CacheService, Redis, Json, Stats, get_stats, get, set, record_miss, record_bypass,
  is_active,
}
use sentinel_adc.Cache.Requests.{
  Request, Answer, arrive, finish, is_cacheable, looked_up, cache_key, to_cache,
}
use sentinel_adc.Cache.Origin.{Event, arrives, finishes, step, run}

abbrev pub arrivals : List Event → ℕ
arrivals [] = 0
arrivals (arrives req now latency ∷ es) = suc (arrivals es)
arrivals (finishes req a now latency ∷ es) = arrivals es

abbrev pub finished : List Event → ℕ
finished [] = 0
finished (arrives req now latency ∷ es) = finished es
finished (finishes req a now latency ∷ es) = suc (finished es)

hit_ratio-le : (st : Stats) → (get_stats st).hit_ratio ≤ 10000
unfolding get_stats
hit_ratio-le st = elim (Bool-cases (ltb 0 (st.hits + st.misses))) [
  | inl some_counted ↦
      rw some_counted
        (round_div-le (st.hits * 10000) (st.hits + st.misses) 10000 (ground arith) (omega arith))
  | inr none_counted ↦ rw none_counted (omega arith)
]

module _ {S : Type 0} (client : Redis S) (json : Json) (utf8 : List ℕ → String) (ttl : ℕ) where
  get-stats :
      (key : String) (now : ℕ) (s : CacheService S) → (get client json key now s).1.stats ≡ s.stats
  unfolding get
  get-stats key now s = ground arith

  set-stats :
      (key : String) (v : Cached) (now : ℕ) (s : CacheService S)
      → (set client json key v ttl now s).stats ≡ s.stats
  unfolding set
  set-stats key v now s = ground arith

  looked_up-counts :
      (latency : ℕ) (p : Option Cached × CacheService S)
      → ((looked_up client json utf8 ttl latency p).1.stats.misses ≡ p.1.stats.misses)
        × ((looked_up client json utf8 ttl latency p).1.stats.total_bypasses
            ≡ p.1.stats.total_bypasses)
        × ((looked_up client json utf8 ttl latency p).1.stats.hits ≤ p.1.stats.hits + 1)
  unfolding looked_up
  looked_up-counts latency (none, s) = ground arith
  looked_up-counts latency (some c, s) = ground arith

  arrive-counts :
      (req : Request) (now latency : ℕ) (s : CacheService S)
      → ((arrive client json utf8 ttl req now latency s).1.stats.misses ≡ s.stats.misses)
        × ((arrive client json utf8 ttl req now latency s).1.stats.hits
              + (arrive client json utf8 ttl req now latency s).1.stats.total_bypasses
            ≤ s.stats.hits + s.stats.total_bypasses + 1)
  unfolding arrive record_bypass
  arrive-counts req now latency s = elim (Bool-cases (is_active s && is_cacheable req)) [
    | inl asked ↦
        let (m, b, h) = looked_up-counts latency (get client json (cache_key req) now s) in
        let e = get-stats (cache_key req) now s in
        let eh = ap (λ (t : Stats). t.hits) e in
        let em = ap (λ (t : Stats). t.misses) e in
        let eb = ap (λ (t : Stats). t.total_bypasses) e in
        rw asked (omega (arith, m, b, h, eh, em, eb))
    | inr not_asked ↦ rw not_asked (ground arith)
  ]

  finish-counts :
      (req : Request) (a : Answer) (now latency : ℕ) (s : CacheService S)
      → ((finish client json utf8 ttl req a now latency s).stats.misses ≡ s.stats.misses + 1)
        × ((finish client json utf8 ttl req a now latency s).stats.hits ≡ s.stats.hits)
        × ((finish client json utf8 ttl req a now latency s).stats.total_bypasses
            ≡ s.stats.total_bypasses)
  unfolding finish record_miss
  finish-counts req a now latency s =
      let e = set-stats (cache_key req) (to_cache utf8 a) now s in
      let eh = ap (λ (t : Stats). t.hits) e in
      let em = ap (λ (t : Stats). t.misses) e in
      let eb = ap (λ (t : Stats). t.total_bypasses) e in ground arith

  counts :
      (es : List Event) (s : CacheService S)
      → s.stats ≡ record {
        hits = 0;
        misses = 0;
        total_hit_latency = 0;
        total_miss_latency = 0;
        total_bypasses = 0;
      }
      → ((run client json utf8 ttl es s).stats.misses ≡ finished es)
        × ((run client json utf8 ttl es s).stats.hits
              + (run client json utf8 ttl es s).stats.total_bypasses
            ≤ arrivals es)
  unfolding run step
  counts [] s start = (
    ap (λ (t : Stats). t.misses) start,
    omega (arith, ap (λ (t : Stats). t.hits) start, ap (λ (t : Stats). t.total_bypasses) start),
  )
  counts (arrives req now latency ∷ es) s start =
      let (m, h) = counts es s start in
      let (m', h') = arrive-counts req now latency (run client json utf8 ttl es s) in
      (m' ∙ m, omega (arith, h, h'))
  counts (finishes req a now latency ∷ es) s start =
      let (m, h) = counts es s start in
      let (m', h', b') = finish-counts req a now latency (run client json utf8 ttl es s) in
      (omega (arith, m, m'), omega (arith, h, h', b'))

  -- After any requests and answers, every answer that ended is counted as a miss, no request is counted
  -- twice among hits and bypasses, and the ratio of hits is at most a hundred percent.
  pub run-counts :
      (es : List Event) (s : CacheService S)
      → s.stats ≡ record {
        hits = 0;
        misses = 0;
        total_hit_latency = 0;
        total_miss_latency = 0;
        total_bypasses = 0;
      }
      → ((run client json utf8 ttl es s).stats.misses ≡ finished es)
        × ((run client json utf8 ttl es s).stats.hits
              + (run client json utf8 ttl es s).stats.total_bypasses
            ≤ arrivals es)
        × ((get_stats (run client json utf8 ttl es s).stats).hit_ratio ≤ 10000)
  run-counts es s start =
      let (m, h) = counts es s start in (m, h, hit_ratio-le (run client json utf8 ttl es s).stats)
