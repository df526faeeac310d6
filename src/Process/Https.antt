-- ===== src/Process/Https.antt =====
-- The shutdown and the HTTPS server (src/index.js): only `server` is closed.
use sentinel_adc.Base.{ℕ, zero, suc, ◌≡◌, refl, true, none, some, [], arith}
use sentinel_adc.Http.{Tls}
use sentinel_adc.Cache.{CacheService}
use sentinel_adc.Analytics.{AnalyticsDb}
use sentinel_adc.Process.{
  Process, launch, listens, https_connects, signals, closes, cache_closes, db_closes, may, handle,
  happens, Reach, now, later,
}

module _ {S D : Type 0} (tls : Tls) where
  -- A process with this many HTTPS requests and no other.
  abbrev Loaded : ℕ → Process S D → Type 0
  Loaded n p =
      (p.https_requests ≡ n)
      × (p.exit ≡ none)
      × (p.https_accepting ≡ true)
      × (p.requests ≡ 0)
      × (p.callbacks ≡ [])

  load :
      (cache : CacheService S) (analytics : AnalyticsDb D) (n : ℕ)
      → tls.enabled ≡ true
      → (p : Process S D) × Reach tls true (launch cache analytics) p × Loaded n p
  unfolding may handle
  load cache analytics zero on =
      (_, later now (happens (listens 1 2) refl refl), (refl, refl, rw on refl, refl, refl))
  load cache analytics (suc n) on =
      let (p, r, (many, runs, open_, idle, calm)) = load cache analytics n on in
      (
        _,
        later r (happens https_connects (rw runs refl) open_),
        (omega (arith, many), runs, open_, idle, calm),
      )

  -- With TLS on and its files readable, the process may exit with 0 while any number of HTTPS requests
  -- are in flight: a shutdown neither stops the HTTPS server nor waits for its requests.
  pub https_cut_off :
      (cache : CacheService S) (analytics : AnalyticsDb D) (n : ℕ)
      → tls.enabled ≡ true
      → (p : Process S D) × Reach tls true (launch cache analytics) p
        × (p.exit ≡ some 0)
        × (p.https_requests ≡ n)
        × (p.https_accepting ≡ true)
  unfolding may handle
  https_cut_off cache analytics n on =
      let (p, r, (many, runs, open_, idle, calm)) = load cache analytics n on in
      let signalled = later r (happens signals (rw runs refl) refl) in
      let closed = later signalled (happens (closes 0) (rw runs refl) (rw (idle, calm) refl)) in
      let quit = later closed (happens (cache_closes 0 true) (rw runs refl) (rw calm refl)) in
      (_, later quit (happens (db_closes 0 true) (rw runs refl) (rw calm refl)), refl, many, open_)
