-- ===== src/RateLimit/Middleware.antt =====
-- The middleware: penalties, the fallback, the other clients and the cleanup.
use sentinel_adc.Base.{
  ℕ, ◌+◌, ◌-◌, ◌*◌, ◌≤◌, ◌≡◌, ◌≢◌, refl, ap, Option, none, some, arith, ltb, if◌then◌else◌, String,
  lookup, lookup-insert_self, lookup-insert_ne, lookup-remove, lookup-remove_self, lookup-remove_ne,
}
use sentinel_adc.RateLimit.{
  Bucket, Redis, inactive, failing, active, RateLimiter, Penalty, Config, Decision, serve,
  middleware, capacity_of, apply_penalty, refill, consume, decide, drop_expired, remove_penalty,
}
use sentinel_adc.RateLimit.Serving.{stored, lua-serve}

-- The answer of the middleware, by the bucket of the client.
abbrev pub outcome : Config → ℕ → ℕ → Option Bucket → Decision
outcome c capacity now o = decide capacity (serve c.window_ms capacity now 1 o).0

buckets-drop_expired :
    (ip : String) (seen : ℕ) (o : Option Penalty) (l : RateLimiter)
    → (drop_expired ip seen o l).memory_buckets ≡ l.memory_buckets
unfolding drop_expired
buckets-drop_expired ip seen none l = refl
buckets-drop_expired ip seen (some p) l = ground arith

-- Without Redis, and when its script fails, the bucket of the client in memory decides.
pub middleware_fallback :
    (c : Config) (ip : String) (seen now : ℕ) (l : RateLimiter)
    → ((middleware c ip seen now inactive l).0
        ≡ outcome c (capacity_of c ip seen l) now (lookup ip l.memory_buckets))
      × ((middleware c ip seen now failing l).0
          ≡ outcome c (capacity_of c ip seen l) now (lookup ip l.memory_buckets))
unfolding middleware
middleware_fallback c ip seen now l = (
  rw (buckets-drop_expired ip seen (lookup ip l.penalized_ips) l),
  rw (buckets-drop_expired ip seen (lookup ip l.penalized_ips) l),
)

-- The answer does not depend on where the bucket is kept: with the client's bucket in Redis it is
-- the one that the same bucket in memory gives when the script fails.
pub middleware-redis :
    (c : Config) (ip : String) (seen now : ℕ) (l : RateLimiter)
    → (middleware c ip seen now (active (stored (lookup ip l.memory_buckets))) l).0
      ≡ (middleware c ip seen now failing l).0
unfolding middleware
middleware-redis c ip seen now l = rw (buckets-drop_expired ip seen (lookup ip l.penalized_ips) l) (
    ap (decide (capacity_of c ip seen l))
      (lua-serve c.window_ms (capacity_of c ip seen l) now 1 (lookup ip l.memory_buckets)).0)

-- A penalty holds the client to its capacity until it expires, and then no more; the next request
-- keeps a penalty that has not expired and removes one that has.
pub middleware-penalty :
    (c : Config) (ip reason : String) (max_requests duration now seen later : ℕ) (l : RateLimiter)
    (redis : Redis)
    → let punished = apply_penalty ip max_requests duration reason now l in
      (capacity_of c ip seen punished
        ≡ (if ltb seen (now + duration) then max_requests else c.max_requests))
      × (lookup ip (middleware c ip seen later redis punished).2.penalized_ips
          ≡ (if ltb seen (now + duration) then lookup ip punished.penalized_ips else none))
unfolding middleware apply_penalty
middleware-penalty c ip reason max_requests duration now seen later l inactive =
    grind (arith, lookup-insert_self, lookup-remove_self)
middleware-penalty c ip reason max_requests duration now seen later l failing =
    grind (arith, lookup-insert_self, lookup-remove_self)
middleware-penalty c ip reason max_requests duration now seen later l (active h) =
    grind (arith, lookup-insert_self, lookup-remove_self)

-- The requests of one client leave the buckets and penalties of the others alone.
pub middleware_ne :
    (c : Config) (ip other : String) (seen now : ℕ) (redis : Redis) (l : RateLimiter)
    → ip ≢ other
    → let l' = (middleware c ip seen now redis l).2 in
      (lookup other l'.memory_buckets ≡ lookup other l.memory_buckets)
      × (lookup other l'.penalized_ips ≡ lookup other l.penalized_ips)
unfolding middleware
middleware_ne c ip other seen now inactive l h = grind (arith, lookup-insert_ne, lookup-remove_ne)
middleware_ne c ip other seen now failing l h = grind (arith, lookup-insert_ne, lookup-remove_ne)
middleware_ne c ip other seen now (active k) l h = grind (arith, lookup-insert_ne, lookup-remove_ne)

drop_expired_unpunished :
    (ip other : String) (seen : ℕ) (o : Option Penalty) (l : RateLimiter)
    → lookup other l.penalized_ips ≡ none
    → lookup other (drop_expired ip seen o l).penalized_ips ≡ none
unfolding drop_expired remove_penalty
drop_expired_unpunished ip other seen none l h = h
drop_expired_unpunished ip other seen (some p) l h =
    ground (arith, lookup-remove ip other l.penalized_ips, h)

-- A client without a penalty has none after a request, its own or another's.
pub middleware_unpunished :
    (c : Config) (ip other : String) (seen now : ℕ) (redis : Redis) (l : RateLimiter)
    → lookup other l.penalized_ips ≡ none
    → lookup other (middleware c ip seen now redis l).2.penalized_ips ≡ none
unfolding middleware
middleware_unpunished c ip other seen now inactive l h =
    drop_expired_unpunished ip other seen (lookup ip l.penalized_ips) l h
middleware_unpunished c ip other seen now failing l h =
    drop_expired_unpunished ip other seen (lookup ip l.penalized_ips) l h
middleware_unpunished c ip other seen now (active k) l h =
    drop_expired_unpunished ip other seen (lookup ip l.penalized_ips) l h

-- A bucket that was idle for a whole window is served as a new one.
serve_idle :
    (window capacity now cost : ℕ) (b : Bucket)
    → window ≤ now - b.last_refill
    → serve window capacity now cost (some b) ≡ serve window capacity now cost none
unfolding serve
serve_idle window capacity now cost b h = ap (consume window capacity cost) (full (grind arith))
  where
    full :
        capacity * window ≤ b.tokens + (now - b.last_refill) * capacity
        → refill window capacity now (some b) ≡ refill window capacity now none
    full e = ground arith
