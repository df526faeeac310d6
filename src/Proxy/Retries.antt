-- ===== src/Proxy/Retries.antt =====
-- How often a request is sent, and where to.
use sentinel_adc.Base.{
  ℕ, zero, suc, ◌+◌, ◌-◌, ◌≤◌, ◌<◌, ◌≡◌, refl, ap, String, Bool, true, false, not, ◌&&◌, ◌||◌, none,
  some, List, [], ◌∷◌, ◌++◌, map, take, arith, max, length, leb, str_eq, str_eq_iff, if◌then◌else◌,
  Bool-cases, inl, inr, All,
}
use sentinel_adc.Circuit.{Manager, record_failure}
use sentinel_adc.Routing.{has}
use sentinel_adc.Strategy.Gcd.{or_one}
use sentinel_adc.Proxy.{
  Exchange, again, bad_gateway, broken_off, is_idempotent, add, calculate_backoff_jitter,
  handle_proxy_error, Upstream, answers, breaks, gateway_error, cut, forward,
}

-- The attempts that are left.
abbrev pub allowance : Exchange → ℕ
allowance x = if is_idempotent x.method then max 1 (4 - x.attempts) else 1

-- The condition of the error handler for one more attempt.
abbrev retries : Bool → Exchange → Bool
retries headers x = is_idempotent x.method && leb (or_one x.attempts) 2 && not headers

-- The request as it is sent again.
abbrev retried : String → Bool → Exchange → Exchange
retried id headers x = record x {
  backend_id = none;
  failed_backends = add id x.failed_backends;
  attempts = or_one x.attempts + 1;
  headers_sent = headers;
}

has-append : (id j : String) (l : List String) → has j (l ++ id ∷ []) ≡ (str_eq id j || has j l)
unfolding has
has-append id j [] = ground arith
has-append id j (k ∷ l) = ground (arith, has-append id j l)

has-In : (id j : String) (l : List String) → has id l ≡ true → str_eq id j ≡ true → has j l ≡ true
unfolding has
has-In id j l h e = rw (← (str_eq_iff id j).0 e) h

added : (id j : String) (l : List String) → has j (add id l) ≡ (str_eq id j || has j l)
unfolding add
added id j l = ground (arith, has-append id j l, has-In id j l)

module _ (random : ℕ → ℕ) where
  handled_again :
      (id error : String) (headers : Bool) (now at : ℕ) (x : Exchange) (m : Manager)
      → retries headers x ≡ true
      → handle_proxy_error random error now at
          (record x { backend_id = some id; headers_sent = headers })
          m
        ≡ (
          again (calculate_backoff_jitter random (or_one x.attempts + 1)),
          retried id headers x,
          record_failure id error now at m,
        )
  unfolding handle_proxy_error
  handled_again id error headers now at x m e = rw e

  handled_last :
      (id error : String) (headers : Bool) (now at : ℕ) (x : Exchange) (m : Manager)
      → retries headers x ≡ false
      → handle_proxy_error random error now at
          (record x { backend_id = some id; headers_sent = headers })
          m
        ≡ (
          if headers then broken_off else bad_gateway,
          record x {
            backend_id = some id;
            headers_sent = headers;
            failed_backends = add id x.failed_backends;
            attempts = or_one x.attempts;
          },
          record_failure id error now at m,
        )
  unfolding handle_proxy_error
  handled_last id error headers now at x m e = rw e

  forward_again :
      (id error : String) (headers : Bool) (now at : ℕ) (us : List (String × Upstream × ℕ × ℕ))
      (x : Exchange) (m : Manager)
      → retries headers x ≡ true
      → let (sent, ids, m') =
          forward random us (retried id headers x) (record_failure id error now at m) in
        forward random ((id, breaks error headers, now, at) ∷ us) x m ≡ (sent, id ∷ ids, m')
  unfolding forward
  forward_again id error headers now at us x m e = rw (handled_again id error headers now at x m e)

  forward_ends :
      (id error : String) (headers : Bool) (now at : ℕ) (us : List (String × Upstream × ℕ × ℕ))
      (x : Exchange) (m : Manager)
      → retries headers x ≡ false
      → forward random ((id, breaks error headers, now, at) ∷ us) x m
        ≡ (if headers then cut else gateway_error, id ∷ [], record_failure id error now at m)
  unfolding forward
  forward_ends id error true now at us x m e = rw (handled_last id error true now at x m e)
  forward_ends id error false now at us x m e = rw (handled_last id error false now at x m e)

  -- A request that has been sent at least once is sent at most three times in all if its method is GET,
  -- HEAD or OPTIONS, and at most once otherwise, whatever the upstreams do.
  pub forward-le :
      (us : List (String × Upstream × ℕ × ℕ)) (x : Exchange) (m : Manager)
      → 0 < x.attempts
      → length (forward random us x m).1 ≤ allowance x
  unfolding forward
  forward-le [] x m h = omega arith
  forward-le ((id, answers status text, now, at) ∷ us) x m h = ground arith
  forward-le ((id, breaks error headers, now, at) ∷ us) x m h =
      elim (Bool-cases (retries headers x)) [
        | inl e ↦
            let rest =
              forward-le us (retried id headers x) (record_failure id error now at m)
                (omega arith) in
            rw (forward_again id error headers now at us x m e) (ground (arith, rest))
        | inr e ↦ rw (forward_ends id error headers now at us x m e) (ground arith)
      ]

  -- Every attempt fails before an answer has begun.
  abbrev pub AllBreak : List (String × Upstream × ℕ × ℕ) → Type 0
  AllBreak us = All (λ u. (e : String) × (u.1 ≡ breaks e false)) us

  -- A GET, HEAD or OPTIONS request that has been sent at least once and has `n` attempts left after the
  -- present one, three in all, is sent to the backends of these attempts and to no other if they all
  -- fail before an answer has begun, and the client then gets the status 502.
  pub forward_fails :
      (n : ℕ) (us : List (String × Upstream × ℕ × ℕ)) (x : Exchange) (m : Manager)
      → is_idempotent x.method ≡ true
      → 0 < x.attempts
      → x.attempts + n ≡ 3
      → n < length us
      → AllBreak (take (suc n) us)
      → ((forward random us x m).0 ≡ gateway_error)
        × ((forward random us x m).1 ≡ map (λ u. u.0) (take (suc n) us))
  forward_fails n [] x m i p h l a = absurd (omega arith)
  forward_fails zero ((id, u, now, at) ∷ us) x m i p h l ((error, e), a) =
      let last : retries false x ≡ false = ground arith in
      rw (e, forward_ends id error false now at us x m last) (refl, refl)
  forward_fails (suc n) ((id, u, now, at) ∷ us) x m i p h l ((error, e), a) =
      let more : retries false x ≡ true = ground arith in
      let (sent, ids) =
        forward_fails n us (retried id false x) (record_failure id error now at m) i (omega arith)
          (ground arith) (omega arith) a in
      rw (e, forward_again id error false now at us x m more) (sent, ap (◌∷◌ id) ids)

  -- After a failed attempt its backend and those that have failed the request before are the failed
  -- ones, whether the request is sent again or not.
  pub handle_proxy_error-has :
      (id j error : String) (headers : Bool) (now at : ℕ) (x : Exchange) (m : Manager)
      → has j
          (handle_proxy_error random error now at
            (record x { backend_id = some id; headers_sent = headers })
            m).1.failed_backends
        ≡ (str_eq id j || has j x.failed_backends)
  handle_proxy_error-has id j error headers now at x m = elim (Bool-cases (retries headers x)) [
    | inl e ↦ rw (handled_again id error headers now at x m e) (added id j x.failed_backends)
    | inr e ↦ rw (handled_last id error headers now at x m e) (added id j x.failed_backends)
  ]
