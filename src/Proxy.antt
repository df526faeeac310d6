-- ===== src/Proxy.antt =====
-- The retries of the proxy (src/proxy/proxyMiddleware.js). A request's fields `_attempts`,
-- `_failedBackends` and `_backendId` are an exchange, and `random cap` stands for
-- `Math.floor(Math.random() * cap)`. The methods are in upper case.
pub mod Retries
use sentinel_adc.Base.{
  ℕ, ◌+◌, ◌*◌, ◌^◌, min, String, Bool, true, false, not, ◌&&◌, ◌||◌, Option, none, some, List, [],
  ◌∷◌, ◌++◌, leb, ltb, str_eq, if◌then◌else◌,
}
use sentinel_adc.Circuit.{Manager, record_success, record_failure}
use sentinel_adc.Routing.{has}
use sentinel_adc.Strategy.Gcd.{or_one}

pub record Exchange : Type 0 where
  pub method : String
  pub backend_id : Option String
  pub failed_backends : List String
  pub attempts : ℕ
  pub headers_sent : Bool

-- What the error handler does with the request: it waits and sends it again, it answers 502, or it
-- leaves an answer that has begun as it is.
pub data Reaction : Type 0 where
  again : ℕ → Reaction
  bad_gateway broken_off : Reaction

unfoldable pub calculate_backoff_jitter : (ℕ → ℕ) → ℕ → ℕ
calculate_backoff_jitter random attempt = random (min 500 (50 * 2 ^ attempt))

abbrev pub is_idempotent : String → Bool
is_idempotent method = str_eq method "GET" || str_eq method "HEAD" || str_eq method "OPTIONS"

-- `_failedBackends.add`.
unfoldable pub add : String → List String → List String
add id failed = if has id failed then failed else failed ++ id ∷ []

blame : Option String → String → ℕ → ℕ → Exchange → Manager → Exchange × Manager
unfolding add
blame none error now at x m = (x, m)
blame (some id) error now at x m =
    (record x { failed_backends = add id x.failed_backends }, record_failure id error now at m)

unfoldable pub handle_proxy_error :
    (ℕ → ℕ) → String → ℕ → ℕ → Exchange → Manager → Reaction × Exchange × Manager
unfolding blame calculate_backoff_jitter
handle_proxy_error random error now at x m =
    let (x', m') = blame x.backend_id error now at x m in
    let n = or_one x.attempts in
    if is_idempotent x.method && leb n 2 && not x.headers_sent
    then (
      again (calculate_backoff_jitter random (n + 1)),
      record x' { attempts = n + 1; backend_id = none },
      m',
    )
    else (if x.headers_sent then broken_off else bad_gateway, record x' { attempts = n }, m')

-- `proxyRes`.
unfoldable pub on_response : Option String → ℕ → String → ℕ → ℕ → Manager → Manager
on_response none status text now at m = m
on_response (some id) status text now at m =
    if leb 500 status
    then record_failure id text now at m
    else if ltb status 400
    then record_success id now at m
    else m

-- One attempt as the upstream sees it: an answer, with its status and the text that is recorded of a
-- failure, or an error, before or after the headers went to the client.
pub data Upstream : Type 0 where
  answers : ℕ → String → Upstream
  breaks : String → Bool → Upstream

-- What the client gets in the end; `waiting` means that no attempt is left in the list.
pub data Sent : Type 0 where
  response : ℕ → Sent
  gateway_error cut waiting : Sent

-- The end of an attempt on `id`, with what the attempts after it give.
react : Reaction → String → Manager → Sent × List String × Manager → Sent × List String × Manager
react (again delay) id m (sent, ids, m') = (sent, id ∷ ids, m')
react bad_gateway id m rest = (gateway_error, id ∷ [], m)
react broken_off id m rest = (cut, id ∷ [], m)

module _ (random : ℕ → ℕ) where
  -- The attempts of a request, each with the backend that the router chose for it and the readings of
  -- the clock: what the client gets, the backends that were contacted, and the manager.
  unfoldable pub forward :
      List (String × Upstream × ℕ × ℕ) → Exchange → Manager → Sent × List String × Manager
  unfolding handle_proxy_error on_response react
  forward [] x m = (waiting, [], m)
  forward ((id, answers status text, now, at) ∷ us) x m =
      (response status, id ∷ [], on_response (some id) status text now at m)
  forward ((id, breaks error headers, now, at) ∷ us) x m =
      let here = record x { backend_id = some id; headers_sent = headers } in
      let (reaction, x', m') = handle_proxy_error random error now at here m in
      react reaction id m' (forward us x' m')
