-- ===== src/RateLimit.antt =====
-- The token bucket rate limiter (src/security/rateLimiter.js). Times are in milliseconds. The source
-- counts tokens in floating point and refills `capacity / windowMs` of them in a millisecond; here a
-- token is `window` units and a millisecond brings `capacity` units, so that the amounts are exact.
pub mod Serving
pub mod Bound
pub mod Middleware
use sentinel_adc.Base.{
  ℕ, ◌+◌, ◌-◌, ◌*◌, ◌/◌, String, Bool, true, false, Option, none, some, List, [], ◌∷◌, min, max,
  Dict, lookup, insert, remove, leb, ltb, if◌then◌else◌,
}

pub record Bucket : Type 0 where
  pub tokens : ℕ
  pub last_refill : ℕ

pub record Result : Type 0 where
  pub allowed : Bool
  pub remaining : ℕ
  pub retry_after_ms : ℕ

-- `Math.ceil(a / b)`.
unfoldable pub ceil_div : ℕ → ℕ → ℕ
ceil_div a b = (a + (b - 1)) / b

-- The bucket before the request is served: a new one is full.
unfoldable pub refill : ℕ → ℕ → ℕ → Option Bucket → Bucket
refill window capacity now none = record { tokens = capacity * window; last_refill = now }
refill window capacity now (some b) = record {
  tokens = min (capacity * window) (b.tokens + (now - b.last_refill) * capacity);
  last_refill = now;
}

unfoldable pub consume : ℕ → ℕ → ℕ → Bucket → Result × Bucket
unfolding ceil_div
consume window capacity cost b =
    if leb (cost * window) b.tokens
    then (
      record {
        allowed = true;
        remaining = (b.tokens - cost * window) / window;
        retry_after_ms = 0;
      },
      record b { tokens = b.tokens - cost * window },
    )
    else (
      record {
        allowed = false;
        remaining = b.tokens / window;
        retry_after_ms = ceil_div (cost * window - b.tokens) capacity;
      },
      b,
    )

-- The evaluation of one bucket of the map.
unfoldable pub serve : ℕ → ℕ → ℕ → ℕ → Option Bucket → Result × Bucket
unfolding refill consume
serve window capacity now cost o = consume window capacity cost (refill window capacity now o)

-- `evalTokenBucketMemory`.
unfoldable pub eval_token_bucket_memory :
    ℕ → String → ℕ → ℕ → ℕ → Dict Bucket → Result × Dict Bucket
unfolding serve
eval_token_bucket_memory window ip capacity now cost m =
    let (r, b) = serve window capacity now cost (lookup ip m) in (r, insert ip b m)

-- The hash of a key in Redis: its two fields, each of which may be missing.
pub record Hash : Type 0 where
  pub tokens : Option ℕ
  pub last_refill : Option ℕ

lua_state : ℕ → ℕ → ℕ → Option ℕ → Option ℕ → ℕ × ℕ
lua_state window capacity now (some tokens) (some last_refill) =
    (min (capacity * window) (tokens + (now - last_refill) * capacity), now)
lua_state window capacity now _ _ = (capacity * window, now)

-- `TOKEN_BUCKET_LUA`: the reply, the fields that `HMSET` writes and the seconds to `EXPIRE`.
unfoldable pub token_bucket_lua : ℕ → ℕ → ℕ → ℕ → Hash → Result × Hash × ℕ
unfolding lua_state ceil_div
token_bucket_lua window capacity now cost h =
    let (tokens, last_refill) = lua_state window capacity now h.tokens h.last_refill in
    let allowed = leb (cost * window) tokens in
    let tokens' = if allowed then tokens - cost * window else tokens in
    (
      record {
        allowed = allowed;
        remaining = tokens' / window;
        retry_after_ms = if allowed then 0 else ceil_div (cost * window - tokens) capacity;
      },
      record { tokens = some tokens'; last_refill = some last_refill },
      ceil_div window 1000 + 60,
    )

pub record Penalty : Type 0 where
  pub max_requests : ℕ
  pub expires_at : ℕ
  pub reason : String

pub record RateLimiter : Type 0 where
  pub memory_buckets : Dict Bucket
  pub penalized_ips : Dict Penalty

unfoldable pub apply_penalty : String → ℕ → ℕ → String → ℕ → RateLimiter → RateLimiter
apply_penalty ip max_requests duration_ms reason now l = record l {
  penalized_ips =
      insert ip
        (record { max_requests = max_requests; expires_at = now + duration_ms; reason = reason })
        l.penalized_ips;
}

unfoldable pub remove_penalty : String → RateLimiter → RateLimiter
remove_penalty ip l = record l { penalized_ips = remove ip l.penalized_ips }

-- The two loops of `cleanupMemoryStore`.
unfoldable pub fresh_buckets : ℕ → Dict Bucket → Dict Bucket
fresh_buckets now [] = []
fresh_buckets now ((ip, b) ∷ m) =
    let rest = fresh_buckets now m in
    if ltb (b.last_refill + 300000) now then rest else (ip, b) ∷ rest

unfoldable pub live_penalties : ℕ → Dict Penalty → Dict Penalty
live_penalties now [] = []
live_penalties now ((ip, p) ∷ m) =
    let rest = live_penalties now m in if ltb p.expires_at now then rest else (ip, p) ∷ rest

unfoldable pub cleanup_memory_store : ℕ → RateLimiter → RateLimiter
unfolding fresh_buckets live_penalties
cleanup_memory_store now l = record {
  memory_buckets = fresh_buckets now l.memory_buckets;
  penalized_ips = live_penalties now l.penalized_ips;
}

-- What `cacheService` offers for a key: no client, a script that fails, or the hash that it holds.
pub data Redis : Type 0 where
  inactive failing : Redis
  active : Hash → Redis

pub record Config : Type 0 where
  pub window_ms : ℕ
  pub max_requests : ℕ

pub data Decision : Type 0 where
  -- `next()`, with the limit and the remaining requests in the headers
  passed : ℕ → ℕ → Decision
  -- status 429, with the limit, the remaining requests and the seconds of `Retry-After`
  too_many_requests : ℕ → ℕ → ℕ → Decision

penalty_capacity : ℕ → ℕ → Option Penalty → ℕ
penalty_capacity default now none = default
penalty_capacity default now (some p) = if ltb now p.expires_at then p.max_requests else default

drop_expired : String → ℕ → Option Penalty → RateLimiter → RateLimiter
unfolding remove_penalty
drop_expired ip now none l = l
drop_expired ip now (some p) l = if ltb now p.expires_at then l else remove_penalty ip l

-- The capacity of a client, reduced while it has a penalty.
unfoldable pub capacity_of : Config → String → ℕ → RateLimiter → ℕ
unfolding penalty_capacity
capacity_of c ip now l = penalty_capacity c.max_requests now (lookup ip l.penalized_ips)

evaluate : ℕ → String → ℕ → ℕ → Redis → RateLimiter → Result × Redis × RateLimiter
unfolding eval_token_bucket_memory token_bucket_lua
evaluate window ip capacity now (active h) l =
    let (r, h', ttl) = token_bucket_lua window capacity now 1 h in (r, active h', l)
evaluate window ip capacity now redis l =
    let (r, m) = eval_token_bucket_memory window ip capacity now 1 l.memory_buckets in
    (r, redis, record l { memory_buckets = m })

unfoldable pub decide : ℕ → Result → Decision
unfolding ceil_div
decide capacity r =
    if r.allowed
    then passed capacity r.remaining
    else too_many_requests capacity r.remaining (max 1 (ceil_div r.retry_after_ms 1000))

-- `middleware`, for a request of `ip`; `seen` and `now` are its readings of the clock.
unfoldable pub middleware :
    Config → String → ℕ → ℕ → Redis → RateLimiter → Decision × Redis × RateLimiter
unfolding capacity_of drop_expired evaluate decide
middleware c ip seen now redis l =
    let capacity = capacity_of c ip seen l in
    let l' = drop_expired ip seen (lookup ip l.penalized_ips) l in
    let (r, redis', l'') = evaluate c.window_ms ip capacity now redis l' in
    (decide capacity r, redis', l'')
