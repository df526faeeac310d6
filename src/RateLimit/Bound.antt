-- ===== src/RateLimit/Bound.antt =====
-- How many requests a bucket lets through in a span of time.
use sentinel_adc.Base.{
  ℕ, ◌+◌, ◌-◌, ◌*◌, ◌≤◌, ◌≡◌, refl, ap, sym, subst, ◌∙◌, Bool, true, false, some, List, [], ◌∷◌,
  arith, if◌then◌else◌,
}
use sentinel_adc.RateLimit.{Bucket, serve}

-- The requests of cost 1 that pass, one for each time, and the bucket after them.
unfoldable pub admitted : ℕ → ℕ → List ℕ → Bucket → ℕ × Bucket
admitted window capacity [] b = (0, b)
admitted window capacity (now ∷ times) b =
    let (r, b') = serve window capacity now 1 (some b) in
    let (n, last) = admitted window capacity times b' in ((if r.allowed then 1 else 0) + n, last)

-- The times do not fall.
abbrev pub Ascending : ℕ → List ℕ → Type 0
Ascending t [] = Unit
Ascending t (now ∷ times) = (t ≤ now) × Ascending now times

serve_pays :
    (window capacity now : ℕ) (b : Bucket)
    → b.last_refill ≤ now
    → let (r, b') = serve window capacity now 1 (some b) in
      ((if r.allowed then window else 0) + b'.tokens ≤ b.tokens + (now - b.last_refill) * capacity)
      × (b'.last_refill ≡ now)
unfolding serve
serve_pays window capacity now b h = ground arith

one_more :
    (t : Bool) (n window capacity tokens tokens' now now' last start kept : ℕ)
    → (if t then window else 0) + tokens' ≤ tokens + (now - start) * capacity
    → now' ≡ now
    → n * window + kept + now' * capacity ≤ tokens' + last * capacity
    → start ≤ now
    → ((if t then 1 else 0) + n) * window + kept + start * capacity ≤ tokens + last * capacity
one_more t n window capacity tokens tokens' now now' last start kept paid e rest h =
    let z = now - start in
    let split : now ≡ start + z = omega arith in
    let span = ap (λ (x : ℕ). x * capacity) split in
    let same = ap (λ (x : ℕ). x * capacity) e in by_test t paid span same
  where
    by_test :
        (t : Bool)
        → (if t then window else 0) + tokens' ≤ tokens + (now - start) * capacity
        → now * capacity ≡ (start + (now - start)) * capacity
        → now' * capacity ≡ now * capacity
        → ((if t then 1 else 0) + n) * window + kept + start * capacity ≤ tokens + last * capacity
    by_test true p q r = omega arith
    by_test false p q r = omega arith

-- In a span of time a bucket lets through at most what it held and what the span brought in.
admitted_pays :
    (window capacity : ℕ) (times : List ℕ) (b : Bucket)
    → Ascending b.last_refill times
    → let (n, last) = admitted window capacity times b in
      (n * window + last.tokens + b.last_refill * capacity ≤ b.tokens + last.last_refill * capacity)
unfolding admitted
admitted_pays window capacity [] b a = omega arith
admitted_pays window capacity (now ∷ times) b a =
    let (r, b') = serve window capacity now 1 (some b) in
    let (paid, at_now) = serve_pays window capacity now b a.0 in
    let rest =
      admitted_pays window capacity times b' (subst (λ t. Ascending t times) (sym at_now) a.1) in
    one_more r.allowed _ window capacity _ _ _ _ _ _ _ paid at_now rest a.0

abbrev pub last_time : ℕ → List ℕ → ℕ
last_time t [] = t
last_time t (now ∷ times) = last_time now times

last_refill-admitted :
    (window capacity : ℕ) (times : List ℕ) (b : Bucket)
    → Ascending b.last_refill times
    → (admitted window capacity times b).1.last_refill ≡ last_time b.last_refill times
unfolding admitted
last_refill-admitted window capacity [] b a = refl
last_refill-admitted window capacity (now ∷ times) b a =
    let (r, b') = serve window capacity now 1 (some b) in
    let (paid, at_now) = serve_pays window capacity now b a.0 in
    last_refill-admitted window capacity times b' (subst (λ t. Ascending t times) (sym at_now) a.1)
    ∙ ap (λ t. last_time t times) at_now

ascends : (t : ℕ) (times : List ℕ) → Ascending t times → t ≤ last_time t times
ascends t [] a = omega arith
ascends t (now ∷ times) a = omega (arith, ascends now times a.1)

bound_from :
    (n window capacity tokens kept start last : ℕ)
    → n * window + kept + start * capacity ≤ tokens + last * capacity
    → tokens ≤ capacity * window
    → start ≤ last
    → n * window ≤ capacity * (window + (last - start))
bound_from n window capacity tokens kept start last paid full h =
    let z = last - start in
    let split : last ≡ start + z = omega arith in omega (arith, ap (λ (x : ℕ). x * capacity) split)

-- Over any requests at times that do not fall, a client whose bucket holds at most its capacity passes
-- at most `capacity + capacity / window * span` times: the burst and what the span brings in.
pub admitted-le :
    (window capacity : ℕ) (times : List ℕ) (b : Bucket)
    → b.tokens ≤ capacity * window
    → Ascending b.last_refill times
    → (admitted window capacity times b).0 * window
      ≤ capacity * (window + (last_time b.last_refill times - b.last_refill))
admitted-le window capacity times b full a =
    bound_from _ window capacity b.tokens _ b.last_refill _
      (subst
        (λ l.
          (admitted window capacity times b).0 * window
            + (admitted window capacity times b).1.tokens
            + b.last_refill * capacity
          ≤ b.tokens + l * capacity)
        (last_refill-admitted window capacity times b a) (admitted_pays window capacity times b a))
      full (ascends b.last_refill times a)
