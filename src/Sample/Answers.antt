-- ===== src/Sample/Answers.antt =====
-- What the health monitor and the proxy meet at a sample backend (backends/server.js).
use sentinel_adc.Base.{
  ℕ, ◌+◌, ◌≡◌, ◌<◌, ◌≤◌, refl, Bool, true, String, arith, Bool-cases, inl, inr, ◌⊎◌, ◌==◌,
}
use sentinel_adc.Http.{Request}
use sentinel_adc.Sample.{Sample, count, answer, serve}

module _ (matches : String → String → Bool) (random : ℕ → ℕ) (value : ℕ) where
  delay_bound : (s : Sample) → ((n : ℕ) → 0 < n → random n < n) → (count random s).0 ≤ 79
  unfolding count
  delay_bound s bound = ground (arith, bound 60)

  answer_bound :
      (now : ℕ) (req : Request) (s : Sample)
      → ((n : ℕ) → 0 < n → random n < n)
      → (answer matches random value now req s).0 ≤ 1999
  unfolding answer
  answer_bound now req s bound = ground (arith, bound 1500)

  server-answer :
      (now : ℕ) (req : Request) (s : Sample)
      → (answer matches random value now req s).1.server ≡ s.name
  unfolding answer
  server-answer now req s = ground arith

  status-answer :
      (now : ℕ) (req : Request) (s : Sample)
      → ((answer matches random value now req s).1.status ≡ 200)
        ⊎ (((answer matches random value now req s).1.status ≡ 500)
            × (matches "/error" req.path ≡ true))
  unfolding answer
  status-answer now req s = elim (Bool-cases (matches "/error" req.path)) [
    | inl e ↦ elim (Bool-cases ((answer matches random value now req s).1.status == 200)) [
      | inl up ↦ inl (ground arith)
      | inr down ↦ inr (ground arith, e)
    ]
    | inr e ↦ inl (ground arith)
  ]

  -- Every request is counted once and answered with the name of the server in less than 2.08 seconds,
  -- with the status 200 unless its path matches the error page, where it may be 500.
  pub serve_lem :
      (now : ℕ) (req : Request) (s : Sample)
      → ((n : ℕ) → 0 < n → random n < n)
      → let (delay, response, s') = serve matches random value now req s in
        (s'.request_count ≡ s.request_count + 1)
        × (response.server ≡ s.name)
        × (delay < 2080)
        × ((response.status ≡ 200) ⊎ ((response.status ≡ 500) × (matches "/error" req.path ≡ true)))
  unfolding serve count
  serve_lem now req s bound =
      let s' = record s { request_count = s.request_count + 1 } in
      (
        refl,
        server-answer now req s',
        omega (arith, delay_bound s bound, answer_bound now req s' bound),
        status-answer now req s',
      )
