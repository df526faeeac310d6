-- ===== src/RateLimit/Serving.antt =====
-- One evaluation of a bucket: its bounds, its hint to retry, and the script in Redis.
use sentinel_adc.Base.{
  ℕ, ◌+◌, ◌-◌, ◌*◌, ◌≤◌, ◌<◌, ◌≡◌, refl, ◌∙◌, false, Option, none, some, arith, min, leb,
  Bool-cases, inl, inr,
}
use sentinel_adc.RateLimit.{Bucket, Hash, ceil_div, refill, consume, serve, token_bucket_lua}

-- Whatever a bucket held before, it holds at most its capacity after a request.
serve-le :
    (window capacity now cost : ℕ) (o : Option Bucket)
    → (serve window capacity now cost o).1.tokens ≤ capacity * window
unfolding serve
serve-le window capacity now cost none = ground arith
serve-le window capacity now cost (some b) = ground arith

-- The hash in Redis that stands for a bucket of the map.
abbrev pub stored : Option Bucket → Hash
stored none = record { tokens = none; last_refill = none }
stored (some b) = record { tokens = some b.tokens; last_refill = some b.last_refill }

-- The script in Redis and the fallback in memory agree: from the same bucket they give the same
-- answer and leave the same bucket.
pub lua-serve :
    (window capacity now cost : ℕ) (o : Option Bucket)
    → let (r, b) = serve window capacity now cost o in
      let (s, h, ttl) = token_bucket_lua window capacity now cost (stored o) in
      (s ≡ r) × (h ≡ stored (some b))
unfolding serve token_bucket_lua
lua-serve window capacity now cost none =
    elim (Bool-cases (leb (cost * window) (capacity * window))) [
      | inl e ↦ rw e (refl, refl)
      | inr e ↦ rw e (refl, refl)
    ]
lua-serve window capacity now cost (some b) =
    elim (Bool-cases (
      leb (cost * window)
        (min (capacity * window) (b.tokens + (now - b.last_refill) * capacity)))) [
          | inl e ↦ rw e (refl, refl)
          | inr e ↦ rw e (refl, refl)
        ]

ceil_div-bounds :
    (a b : ℕ) → 0 < b → (a ≤ ceil_div a b * b) × ((n : ℕ) → a ≤ n * b → ceil_div a b ≤ n)
unfolding ceil_div
ceil_div-bounds a b h = (grind arith, λ n p. grind arith)

consume-allowed :
    (window capacity cost : ℕ) (b : Bucket)
    → (consume window capacity cost b).0.allowed ≡ leb (cost * window) b.tokens
unfolding consume
consume-allowed window capacity cost b = ground arith

consume_refused :
    (window capacity cost : ℕ) (b : Bucket)
    → leb (cost * window) b.tokens ≡ false
    → ((consume window capacity cost b).1 ≡ b)
      × ((consume window capacity cost b).0.retry_after_ms
          ≡ ceil_div (cost * window - b.tokens) capacity)
unfolding consume
consume_refused window capacity cost b e = rw e (refl, refl)

leb_iff : (a b c d : ℕ) → (a ≤ b → c ≤ d) → (c ≤ d → a ≤ b) → leb a b ≡ leb c d
leb_iff a b c d f g = ground arith

-- `d` milliseconds bring the missing tokens exactly if they are `c` at least.
wait_iff :
    (w t capacity c d : ℕ)
    → 0 < capacity
    → w - t ≤ c * capacity
    → (w - t ≤ d * capacity → c ≤ d)
    → leb w (min (capacity * w) (t + d * capacity)) ≡ leb c d
wait_iff w t capacity c d pos enough least =
    let fits : w ≤ capacity * w = grind arith in
    leb_iff _ _ _ _ (λ e. least (omega arith)) (λ e. enough_time e fits)
  where
    enough_time : c ≤ d → w ≤ capacity * w → w ≤ min (capacity * w) (t + d * capacity)
    enough_time e fits = grind arith

from_now : (now later c : ℕ) → now ≤ later → leb c (later - now) ≡ leb (now + c) later
from_now now later c h = ground arith

retry_bucket :
    (window capacity now later : ℕ) (b : Bucket)
    → 0 < capacity
    → b.last_refill ≡ now
    → leb (1 * window) b.tokens ≡ false
    → now ≤ later
    → (serve window capacity later 1 (some b)).0.allowed
      ≡ leb (now + ceil_div (1 * window - b.tokens) capacity) later
unfolding serve
retry_bucket window capacity now later b pos last refused h =
    let (enough, least) = ceil_div-bounds (1 * window - b.tokens) capacity pos in
    let c = ceil_div (1 * window - b.tokens) capacity in
    let wait =
      wait_iff (1 * window) b.tokens capacity c (later - now) pos enough (least (later - now)) in
    consume-allowed window capacity 1 (refill window capacity later (some b))
    ∙ (unfold refill in ground arith)
    ∙ wait
    ∙ from_now now later c h

last_refill-refill :
    (window capacity now : ℕ) (o : Option Bucket) → (refill window capacity now o).last_refill ≡ now
unfolding refill
last_refill-refill window capacity now none = refl
last_refill-refill window capacity now (some b) = refl

-- With a positive capacity, a request of cost 1 that was refused succeeds after the time `retryAfterMs`, if no other request
-- of the client comes before, and not earlier.
pub retry_exact :
    (window capacity now later : ℕ) (o : Option Bucket)
    → 0 < capacity
    → (serve window capacity now 1 o).0.allowed ≡ false
    → now ≤ later
    → (serve window capacity later 1 (some (serve window capacity now 1 o).1)).0.allowed
      ≡ leb (now + (serve window capacity now 1 o).0.retry_after_ms) later
retry_exact window capacity now later o pos refused h =
    let b = refill window capacity now o in
    let short : leb (1 * window) b.tokens ≡ false =
      unfold serve in ground (arith, consume-allowed window capacity 1 b) in
    let (same, hint) = consume_refused window capacity 1 b short in
    let again =
      retry_bucket window capacity now later b pos (last_refill-refill window capacity now o) short
        h in
    unfold serve in rw (same, hint) again
