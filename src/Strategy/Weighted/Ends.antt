-- ===== src/Strategy/Weighted/Ends.antt =====
-- The loop of weighted round robin ends, and what it chooses.
use native.Mathlib.Nat.{mod-eq_of_lt, mod-mod, mod-lt, mod_self}
use mathlib.Core.Option
use sentinel_adc.Pool.{Backend}
use sentinel_adc.Base.{
  ℕ, zero, suc, ◌+◌, ◌*◌, ◌%◌, ◌≤◌, ◌<◌, ◌≡◌, refl, true, false, Option, none, some, List, [], ◌∷◌,
  arith, length, get_elem?, leb, ◌==◌, is_some, Bool-cases, inl, inr, ◌||◌, get_elem?-total, In,
  here, there, max, get_elem?-In,
}
use sentinel_adc.Strategy.Gcd.{
  get_gcd_of_weights, get_max_weight, get_gcd_of_weights_pos, get_max_weight_lem,
}
use sentinel_adc.Strategy.Weighted.{
  Weighted, Member, visit, spin, lowered, enough, weights, select_member, select, virtual_pool,
}

not_first :
    (pool : List Member) (k : ℕ) (m x : Member)
    → get_elem? pool k ≡ some m
    → get_elem? pool 0 ≡ some x
    → leb m.weight x.weight ≡ false
    → 0 < k
not_first pool zero m x e f h = absurd (ground arith)
not_first pool (suc k) m x e f h = omega arith

module _ (pool : List Member) (g mx : ℕ) where
  -- A round that stays behind the first member, and one that starts over at it.
  spin_inside :
      (fuel next cw : ℕ) (m : Member)
      → 0 < next
      → next < length pool
      → get_elem? pool next ≡ some m
      → is_some (spin (suc fuel) pool g mx next cw)
        ≡ (leb cw m.weight || is_some (spin fuel pool g mx (next + 1) cw))
  unfolding spin
  spin_inside fuel next cw m p n e =
      let behind : (next == 0) ≡ false = ground arith in
      rw (mod-eq_of_lt n, e, behind, visit) (ground arith)

  spin_start :
      (fuel next cw : ℕ) (m : Member)
      → next % length pool ≡ 0
      → get_elem? pool 0 ≡ some m
      → is_some (spin (suc fuel) pool g mx next cw)
        ≡ (leb (lowered g mx cw) m.weight || is_some (spin fuel pool g mx 1 (lowered g mx cw)))
  unfolding spin
  spin_start fuel next cw m z e = rw (z, e, visit) (ground arith)

  -- From behind the start of a round, a member further on whose weight suffices is reached.
  spin_reaches :
      (fuel next cw k : ℕ) (m : Member)
      → 0 < next
      → next ≤ k
      → k < length pool
      → get_elem? pool k ≡ some m
      → cw ≤ m.weight
      → k < fuel + next
      → is_some (spin fuel pool g mx next cw) ≡ true
  spin_reaches zero next cw k m p h n e w f = absurd (omega arith)
  spin_reaches (suc fuel) next cw k m p h n e w f =
      let (x, here_x) = get_elem?-total pool next (omega arith) in
      elim (Bool-cases (next == k)) [
        | inl same ↦
            let is_k : next ≡ k = ground arith in
            rw (spin_inside fuel next cw m p (omega arith) (rw is_k e)) (ground arith)
        | inr other ↦
            let rest =
              spin_reaches fuel (next + 1) cw k m (omega arith) (ground arith) n e w
                (omega arith) in
            rw (spin_inside fuel next cw x p (omega arith) here_x) (ground arith)
      ]

  module _ (k : ℕ) (m : Member) (e : get_elem? pool k ≡ some m) (top : m.weight ≡ mx)
      (n : k < length pool) (pos : 0 < g) where
    within :
        (next : ℕ)
        → next ≤ length pool
        → (next % length pool == 0) ≡ false
        → (0 < next) × (next < length pool)
    within next h e = grind (arith, mod_self)

    -- After the start of a round: either the maximum is next, or a smaller weight.
    after_start :
        (fuel cw : ℕ) (x : Member)
        → get_elem? pool 0 ≡ some x
        → leb (lowered g mx cw) x.weight ≡ false
        → length pool * (cw + 1) < suc fuel
        → ((cw' : ℕ)
            → 1 ≤ length pool
            → length pool * (cw' + 2) < fuel + 1
            → is_some (spin fuel pool g mx 1 cw') ≡ true)
        → is_some (spin fuel pool g mx 1 (lowered g mx cw)) ≡ true
    after_start fuel cw x here_x low f again = elim (Bool-cases (leb cw g)) [
      | inl over ↦
          let to_max : lowered g mx cw ≡ mx = ground arith in
          let later : 0 < k = not_first pool k m x e here_x (ground arith) in
          rw to_max (spin_reaches fuel 1 mx k m (omega arith) later n e (omega arith) (grind arith))
      | inr still ↦
          let smaller : lowered g mx cw + 1 ≤ cw = ground arith in
          again (lowered g mx cw) (omega arith) (grind arith)
    ]

    restart :
        (fuel next cw : ℕ)
        → next ≤ length pool
        → length pool * (cw + 2) < suc fuel + next
        → next % length pool ≡ 0
        → ((cw' : ℕ)
            → 1 ≤ length pool
            → length pool * (cw' + 2) < fuel + 1
            → is_some (spin fuel pool g mx 1 cw') ≡ true)
        → is_some (spin (suc fuel) pool g mx next cw) ≡ true
    restart fuel next cw h f z again =
        let (x, here_x) = get_elem?-total pool 0 (omega arith) in
        rw (spin_start fuel next cw x z here_x)
          (elim (Bool-cases (leb (lowered g mx cw) x.weight)) [
            | inl fits ↦ ground arith
            | inr low ↦
                let rest = after_start fuel cw x here_x low (omega arith) again in ground arith
          ])

    -- Each round starts with a smaller weight, until it is at most the maximum.
    spin_ends :
        (fuel next cw : ℕ)
        → next ≤ length pool
        → length pool * (cw + 2) < fuel + next
        → is_some (spin fuel pool g mx next cw) ≡ true
    spin_ends zero next cw h f = absurd (grind arith)
    spin_ends (suc fuel) next cw h f = elim (Bool-cases (next % length pool == 0)) [
      | inl start ↦ restart fuel next cw h f (ground arith) (spin_ends fuel 1)
      | inr inside ↦
          let behind : (0 < next) × (next < length pool) = within next h inside in
          let (x, here_x) = get_elem?-total pool next behind.1 in
          let rest = spin_ends fuel (next + 1) cw (omega arith) (omega arith) in
          rw (spin_inside fuel next cw x behind.0 behind.1 here_x) (ground arith)
    ]

-- A member of the pool whose weight is at least the weight that the choice leaves behind.
abbrev pub Fits : List Member → Option (Member × Weighted) → Type 0
Fits pool none = Unit
Fits pool (some (m, s)) = In m pool × (s.current_weight ≤ m.weight)

visit-Fits :
    (pool : List Member) (o : Option Member) (i cw : ℕ) (rest : Option (Member × Weighted))
    → get_elem? pool i ≡ o
    → Fits pool rest
    → Fits pool (visit o i cw rest)
unfolding visit
visit-Fits pool none i cw rest e h = h
visit-Fits pool (some m) i cw rest e h = elim (Bool-cases (leb cw m.weight)) [
  | inl fits ↦ rw fits (get_elem?-In pool i e, ground arith)
  | inr low ↦ rw low h
]

spin-Fits : (pool : List Member) (g mx fuel next cw : ℕ) → Fits pool (spin fuel pool g mx next cw)
unfolding spin
spin-Fits pool g mx zero next cw = tt
spin-Fits pool g mx (suc fuel) next cw =
    visit-Fits pool _ (next % length pool) _ _ refl (spin-Fits pool g mx fuel _ _)

-- A list that shrank since the last call: only the remainder of the index counts.
spin-mod :
    (pool : List Member) (g mx fuel next cw : ℕ)
    → spin fuel pool g mx next cw ≡ spin fuel pool g mx (next % length pool) cw
unfolding spin
spin-mod pool g mx zero next cw = refl
spin-mod pool g mx (suc fuel) next cw = rw mod-mod

abbrev HasWeight : List Member → ℕ → Type 0
HasWeight pool x =
    (k : ℕ) × (m : Member) × (get_elem? pool k ≡ some m) × (m.weight ≡ x) × (k < length pool)

weights-In : (pool : List Member) (x : ℕ) → In x (weights pool) → HasWeight pool x
weights-In [] x i = elim i [ ]
weights-In (m ∷ pool) x here = (0, m, refl, refl, omega arith)
weights-In (m ∷ pool) x (there i) =
    let (k, m', e, w, h) = weights-In pool x i in (suc k, m', e, w, omega arith)

spin-total :
    (pool : List Member) (s : Weighted)
    → HasWeight pool (get_max_weight (weights pool))
    → is_some (
        spin
          (enough pool s.current_weight)
          pool
          (get_gcd_of_weights (weights pool))
          (get_max_weight (weights pool))
          s.next_index
          s.current_weight)
      ≡ true
spin-total pool s (k, m, e, w, h) = rw spin-mod (
    spin_ends pool _ _ k m e w h (get_gcd_of_weights_pos (weights pool)) _ _ _
      (grind (arith, mod-lt)) (grind arith))

select_member-total :
    (pool : List Member) (s : Weighted)
    → 0 < get_max_weight (weights pool)
    → (is_some (select_member pool s) ≡ true) × Fits pool (select_member pool s)
unfolding select_member
select_member-total pool s h =
    let positive : (get_max_weight (weights pool) == 0) ≡ false = ground arith in
    elim (get_max_weight_lem (weights pool)).1 [
      | inl z ↦ absurd (omega arith)
      | inr i ↦ rw positive (spin-total pool s (weights-In pool _ i), spin-Fits pool _ _ _ _ _)
    ]

-- The weights of the virtual pool are positive, and its members are the backends.
max-virtual_pool :
    (scaled : ℕ → ℕ → ℕ) (score : Backend → ℕ) (bs : List Backend)
    → 0 < length bs
    → 0 < get_max_weight (weights (virtual_pool scaled score bs))
unfolding virtual_pool
max-virtual_pool scaled score [] h = elim h [ ]
max-virtual_pool scaled score (b ∷ bs) h =
    omega (arith, (get_max_weight_lem (weights (virtual_pool scaled score (b ∷ bs)))).0.0)

In-virtual_pool :
    (scaled : ℕ → ℕ → ℕ) (score : Backend → ℕ) (bs : List Backend) {m : Member}
    → In m (virtual_pool scaled score bs)
    → In m.backend bs
      × (1 ≤ m.weight)
      × (m.weight ≡ max 1 (scaled m.backend.weight (score m.backend)))
unfolding virtual_pool
In-virtual_pool scaled score [] i = elim i [ ]
In-virtual_pool scaled score (b ∷ bs) here = (here, omega arith, refl)
In-virtual_pool scaled score (b ∷ bs) (there i) =
    let (j, p, w) = In-virtual_pool scaled score bs i in (there j, p, w)

-- The choice and the state after it.
abbrev pub Chosen :
    (ℕ → ℕ → ℕ) → (Backend → ℕ) → List Backend → Option (Backend × Weighted) → Type 0
Chosen scaled score bs none = ⊥
Chosen scaled score bs (some (b, s)) =
    In b bs × (s.current_weight ≤ max 1 (scaled b.weight (score b)))

choose :
    (scaled : ℕ → ℕ → ℕ) (score : Backend → ℕ) (bs : List Backend) (o : Option (Member × Weighted))
    → is_some o ≡ true
    → Fits (virtual_pool scaled score bs) o
    → Chosen scaled score bs (Option.map (λ r. (r.0.backend, r.1)) o)
choose scaled score bs none h f = cc
choose scaled score bs (some (m, s)) h (i, le) =
    let (j, p, w) = In-virtual_pool scaled score bs i in (j, omega arith)

-- The loop ends for every list of backends that is not empty, whatever index and weight the calls
-- before left behind: it chooses a backend of the list whose scaled weight, raised to 1 if it is
-- less, is at least the current weight.
pub select-Chosen :
    (scaled : ℕ → ℕ → ℕ) (score : Backend → ℕ) (bs : List Backend) (s : Weighted)
    → 0 < length bs
    → Chosen scaled score bs (select scaled score bs s)
unfolding select
select-Chosen scaled score bs s h =
    let (some_result, fits) =
      select_member-total (virtual_pool scaled score bs) s (max-virtual_pool scaled score bs h) in
    choose scaled score bs _ some_result fits
