-- ===== src/Tests/Limits.antt =====
-- Runs of the rate limiter: ten requests in a second.
use sentinel_adc.Base.{◌≡◌, ◌≤◌, ◌+◌, ◌-◌, ◌*◌, refl, arith, false, some, [], ◌∷◌}
use sentinel_adc.RateLimit.{Bucket, RateLimiter, Config, serve, token_bucket_lua, apply_penalty}
use sentinel_adc.RateLimit.Bound.{admitted, last_time, admitted-le}
use sentinel_adc.RateLimit.Serving.{stored, lua-serve}

-- A bucket with one token and a half.
abbrev bucket : Bucket
bucket = record { tokens = 1500; last_refill = 100 }

abbrev config : Config
config = record { window_ms = 1000; max_requests = 10 }

abbrev limiter : RateLimiter
limiter = record { memory_buckets = ("1.2.3.4", bucket) ∷ []; penalized_ips = [] }

admitted-le_example :
    (admitted 1000 10 (110 ∷ 120 ∷ 300 ∷ []) bucket).0 * 1000
    ≤ 10 * (1000 + (last_time 100 (110 ∷ 120 ∷ 300 ∷ []) - 100))
admitted-le_example = admitted-le 1000 10 (110 ∷ 120 ∷ 300 ∷ []) bucket (omega arith) (ground arith)

lua-serve_example :
    ((token_bucket_lua 1000 10 120 1 (stored (some bucket))).0
      ≡ (serve 1000 10 120 1 (some bucket)).0)
    × ((token_bucket_lua 1000 10 120 1 (stored (some bucket))).1
        ≡ stored (some (serve 1000 10 120 1 (some bucket)).1))
lua-serve_example = lua-serve 1000 10 120 1 (some bucket)

abbrev poor : Bucket
poor = record { tokens = 300; last_refill = 100 }

refused : (serve 1000 10 120 1 (some poor)).0.allowed ≡ false
unfolding serve
refused = refl

abbrev punished : RateLimiter
punished = apply_penalty "1.2.3.4" 2 500 "bot" 100 limiter
