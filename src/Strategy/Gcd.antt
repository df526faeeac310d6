-- ===== src/Strategy/Gcd.antt =====
-- The greatest common divisor and the maximum of the weights
-- (src/routing/strategies/weightedRoundRobin.js).
use mathlib.Core.Logic.{dite, dif_pos, dif_neg}
use mathlib.Core.WellFounded.{Acc}
use native.Mathlib.Bridge.{le_prop}
use native.Mathlib.Decide.{dec_lt}
use sentinel_adc.Base.{
  ℕ, zero, suc, ◌+◌, ◌-◌, ◌*◌, ◌/◌, ◌%◌, ◌≤◌, ◌<◌, ◌≡◌, ◌↔◌, refl, ap, false, List, [], ◌∷◌, arith,
  In, here, there, All, ltb, leb, if◌then◌else◌, ◌==◌, ◌⊎◌, inl, inr, Bool-cases,
}

Acc-below : (k n : ℕ) → n < k → Acc ◌<◌ n
Acc-below zero n h = elim h [ ]
Acc-below (suc k) n h = Acc.intro n (λ m hm. Acc-below k m (omega arith))

pub mod_below : (a b : ℕ) → 0 < b → a % b < b
mod_below a b h = omega arith

-- `while (b) { t = b; b = a % b; a = t }`.
gcd_loop : (a b : ℕ) → Acc ◌<◌ b → ℕ
gcd_loop a b (Acc.intro _ below) =
    dite (dec_lt 0 b) (λ h. gcd_loop b (a % b) (below (a % b) (mod_below a b h))) (λ _. a)

unfoldable pub gcd : ℕ → ℕ → ℕ
unfolding gcd_loop Acc-below dec_lt
gcd a b = gcd_loop a b (Acc-below (suc b) b (omega arith))

-- `weight || 1`.
abbrev pub or_one : ℕ → ℕ
or_one w = if w == 0 then 1 else w

gcd_from : ℕ → List ℕ → ℕ
gcd_from r [] = r
gcd_from r (w ∷ ws) = gcd_from (gcd r (or_one w)) ws

unfoldable pub get_gcd_of_weights : List ℕ → ℕ
unfolding gcd_from gcd
get_gcd_of_weights [] = 1
get_gcd_of_weights (w ∷ ws) = gcd_from (or_one w) ws

max_from : ℕ → List ℕ → ℕ
max_from m [] = m
max_from m (w ∷ ws) = max_from (if ltb m w then w else m) ws

unfoldable pub get_max_weight : List ℕ → ℕ
unfolding max_from
get_max_weight ws = max_from 0 ws

-- A number that divides both.
abbrev pub Divides : ℕ → ℕ → Type 0
Divides d n = (q : ℕ) × (d * q ≡ n)

-- One round of the loop keeps the common divisors.
divides-mod_step : (a b g x y : ℕ) → g * x ≡ b → g * y ≡ a % b → g * (x * (a / b) + y) ≡ a
divides-mod_step a b g x y e f = omega (arith, ap (λ (t : ℕ). t * (a / b)) e)

quotient-le : (a b d p q : ℕ) → 0 < b → d * p ≡ a → d * q ≡ b → leb (q * (a / b)) p ≡ false → ⊥
quotient-le a b zero p q pos e f h = omega arith
quotient-le a b (suc d) p q pos e f h =
    let z = q * (a / b) - p - 1 in
    let split : q * (a / b) ≡ p + 1 + z = ground arith in
    omega (arith, ap (λ (t : ℕ). suc d * t) split, ap (λ (t : ℕ). t * (a / b)) f)

divides-mod : (a b d p q : ℕ) → 0 < b → d * p ≡ a → d * q ≡ b → d * (p - q * (a / b)) ≡ a % b
divides-mod a b d p q pos e f = elim (Bool-cases (leb (q * (a / b)) p)) [
  | inl le ↦
      let z = p - q * (a / b) in
      let split : p ≡ q * (a / b) + z = ground arith in
      omega (arith, ap (λ (t : ℕ). d * t) split, ap (λ (t : ℕ). t * (a / b)) f)
  | inr gt ↦ absurd (quotient-le a b d p q pos e f gt)
]

gcd_loop-Divides :
    (a b : ℕ) (w : Acc ◌<◌ b) → Divides (gcd_loop a b w) a × Divides (gcd_loop a b w) b
unfolding gcd_loop
gcd_loop-Divides a b (Acc.intro _ below) = elim (dec_lt 0 b) [
  | yes p ↦
      let ((x, e), (y, f)) = gcd_loop-Divides b (a % b) (below (a % b) (mod_below a b p)) in
      rw (dif_pos _ le_prop p) ((x * (a / b) + y, divides-mod_step a b _ x y e f), (x, e))
  | no p ↦ rw (dif_neg _ p) ((1, omega arith), (0, omega arith))
]

gcd_loop-greatest :
    (a b d : ℕ) (w : Acc ◌<◌ b) → Divides d a → Divides d b → Divides d (gcd_loop a b w)
unfolding gcd_loop
gcd_loop-greatest a b d (Acc.intro _ below) (p, hp) (q, hq) = elim (dec_lt 0 b) [
  | yes pos ↦ rw (dif_pos _ le_prop pos) (
      gcd_loop-greatest b (a % b) d (below (a % b) (mod_below a b pos)) (q, hq)
        (p - q * (a / b), divides-mod a b d p q pos hp hq))
  | no pos ↦ rw (dif_neg _ pos) (p, hp)
]

-- The loop computes the greatest common divisor: the divisors of its result are the common divisors
-- of the two numbers.
pub gcd_iff : (a b d : ℕ) → Divides d (gcd a b) ↔ (Divides d a × Divides d b)
unfolding gcd
gcd_iff a b d =
    let w : Acc ◌<◌ b = Acc-below (suc b) b (omega arith) in
    let ((p, e), (q, f)) = gcd_loop-Divides a b w in
    (
      (λ (x, h). (
        (x * p, omega (arith, ap (λ (t : ℕ). t * p) h, e)),
        (x * q, omega (arith, ap (λ (t : ℕ). t * q) h, f)),
      )),
      (λ (l, r). gcd_loop-greatest a b d w l r),
    )

-- A positive first number stays positive: it is replaced by the second only while that is positive.
gcd_loop-pos : (t b : ℕ) (w : Acc ◌<◌ b) → 0 < t → 0 < gcd_loop t b w
unfolding gcd_loop
gcd_loop-pos t b (Acc.intro _ below) pos = elim (dec_lt 0 b) [
  | yes p ↦ rw (dif_pos _ le_prop p) (gcd_loop-pos b (t % b) (below (t % b) (mod_below t b p)) p)
  | no p ↦ rw (dif_neg _ p) pos
]

pub gcd_pos : (t b : ℕ) → 0 < t → 0 < gcd t b
unfolding gcd
gcd_pos t b = gcd_loop-pos t b (Acc-below (suc b) b (omega arith))

gcd_from_pos : (r : ℕ) (ws : List ℕ) → 0 < r → 0 < gcd_from r ws
unfolding gcd_from
gcd_from_pos r [] h = h
gcd_from_pos r (w ∷ ws) h = gcd_from_pos (gcd r (or_one w)) ws (gcd_pos r (or_one w) h)

pub get_gcd_of_weights_pos : (ws : List ℕ) → 0 < get_gcd_of_weights ws
unfolding get_gcd_of_weights
get_gcd_of_weights_pos [] = omega arith
get_gcd_of_weights_pos (w ∷ ws) = gcd_from_pos (or_one w) ws (ground arith)

max_from-le : (m k : ℕ) (ws : List ℕ) → max_from m ws ≤ k → (m ≤ k) × All (λ w. w ≤ k) ws
unfolding max_from
max_from-le m k [] h = (h, tt)
max_from-le m k (w ∷ ws) h =
    let (above, rest) = max_from-le (if ltb m w then w else m) k ws h in
    (ground arith, (ground arith, rest))

max_from-In : (m : ℕ) (ws : List ℕ) → (max_from m ws ≡ m) ⊎ In (max_from m ws) ws
unfolding max_from
max_from-In m [] = inl refl
max_from-In m (w ∷ ws) = elim (Bool-cases (ltb m w)) [
  | inl e ↦ rw e (elim (max_from-In w ws) [ inl p ↦ inr (rw p here) | inr q ↦ inr (there q) ])
  | inr e ↦ rw e (elim (max_from-In m ws) [ inl p ↦ inl p | inr q ↦ inr (there q) ])
]

-- The maximum bounds every weight, and is 0 or one of them.
pub get_max_weight_lem :
    (ws : List ℕ)
    → All (λ w. w ≤ get_max_weight ws) ws × ((get_max_weight ws ≡ 0) ⊎ In (get_max_weight ws) ws)
unfolding get_max_weight
get_max_weight_lem ws = ((max_from-le 0 (max_from 0 ws) ws (omega arith)).1, max_from-In 0 ws)
