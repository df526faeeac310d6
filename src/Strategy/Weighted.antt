-- ===== src/Strategy/Weighted.antt =====
-- Weighted round robin (src/routing/strategies/weightedRoundRobin.js). `scaled w s` stands for
-- `Math.round((w || 1) * (s / 100))`, a computation in floating point, and is any function here.
-- The field `currentIndex` starts at -1: `next_index` is `currentIndex + 1`. `currentWeight` is
-- never negative when `select` returns, and `cw - gcd <= 0` is `cw <= gcd`.
pub mod Ends
use mathlib.Core.Option
use sentinel_adc.Base.{
  ℕ, zero, suc, ◌+◌, ◌-◌, ◌*◌, ◌%◌, ◌≤◌, ◌<◌, ◌≡◌, refl, Bool, true, false, Option, none, some,
  List, [], ◌∷◌, arith, max, map, length, get_elem?, leb, ◌==◌, if◌then◌else◌,
}
use sentinel_adc.Pool.{Backend}
use sentinel_adc.Strategy.Gcd.{get_gcd_of_weights, get_max_weight}

pub record Weighted : Type 0 where
  pub next_index : ℕ
  pub current_weight : ℕ

-- A member of `virtualPool`.
pub record Member : Type 0 where
  pub backend : Backend
  pub weight : ℕ

abbrev pub weights : List Member → List ℕ
weights = map λ m. m.weight

unfoldable pub virtual_pool : (ℕ → ℕ → ℕ) → (Backend → ℕ) → List Backend → List Member
virtual_pool scaled score =
    map λ b. record { backend = b; weight = max 1 (scaled b.weight (score b)) }

-- The weight after the wrap-around of a round.
abbrev pub lowered : ℕ → ℕ → ℕ → ℕ
lowered gcd_weight max_weight cw = if leb cw gcd_weight then max_weight else cw - gcd_weight

-- One round of the loop on the member that it has reached, with the rest of the loop.
unfoldable pub visit :
    Option Member → ℕ → ℕ → Option (Member × Weighted) → Option (Member × Weighted)
visit none i cw rest = rest
visit (some m) i cw rest =
    if leb cw m.weight then some (m, record { next_index = i + 1; current_weight = cw }) else rest

-- `while (true)`, with fuel: `none` means that the fuel ran out. `next` is `currentIndex + 1`.
unfoldable pub spin : ℕ → List Member → ℕ → ℕ → ℕ → ℕ → Option (Member × Weighted)
unfolding visit
spin zero pool gcd_weight max_weight next cw = none
spin (suc fuel) pool gcd_weight max_weight next cw =
    let i = next % length pool in
    let cw' = if i == 0 then lowered gcd_weight max_weight cw else cw in
    let rest = spin fuel pool gcd_weight max_weight (i + 1) cw' in
    visit (get_elem? pool i) i cw' rest

-- Enough rounds for any weight that the calls before left behind.
abbrev pub enough : List Member → ℕ → ℕ
enough pool cw = length pool * (cw + 3) + 1

unfoldable pub select_member : List Member → Weighted → Option (Member × Weighted)
unfolding spin
select_member pool s =
    let max_weight = get_max_weight (weights pool) in
    let i = s.next_index % length pool in
    if max_weight == 0
    then Option.map (λ m. (m, record s { next_index = i + 1 })) (get_elem? pool i)
    else spin (enough pool s.current_weight) pool (get_gcd_of_weights (weights pool)) max_weight
        s.next_index s.current_weight

unfoldable pub select :
    (ℕ → ℕ → ℕ) → (Backend → ℕ) → List Backend → Weighted → Option (Backend × Weighted)
unfolding select_member virtual_pool
select scaled score bs s =
    Option.map (λ r. (r.0.backend, r.1)) (select_member (virtual_pool scaled score bs) s)
