-- ===== src/Strategy/RoundRobin.antt =====
-- Round robin (src/routing/strategies/roundRobin.js), for any type of backends.
use native.Mathlib.Nat.{mod-eq_of_lt, mod-lt, mod_self}
use mathlib.Core.List.{map-append}
use sentinel_adc.Base.{
  ℕ, zero, suc, ◌+◌, ◌-◌, ◌%◌, ◌≤◌, ◌<◌, ◌≡◌, refl, ap, Option, some, List, [], ◌∷◌, ◌++◌, map,
  arith, length, get_elem?, drop, take, get_elem?-total, get_elem?-In, In, length-drop,
}

-- The strategy's field `index`.
pub record RoundRobin : Type 0 where
  pub index : ℕ

module _ {ℓ} {A : Type ℓ} where
  unfoldable pub select : List A → RoundRobin → Option A × RoundRobin
  select bs s = (get_elem? bs (s.index % length bs), record { index = (s.index + 1) % length bs })

  -- The choices of `n` calls in a row on the same list.
  unfoldable pub choices : ℕ → List A → RoundRobin → List (Option A)
  choices zero bs s = []
  choices (suc n) bs s = let (b, s') = select bs s in b ∷ choices n bs s'

  -- On a list that is not empty there is a choice, whatever list the calls before had.
  pub select-total :
      (bs : List A) (s : RoundRobin)
      → 0 < length bs
      → ((b : A) × ((select bs s).0 ≡ some b)) × ((select bs s).1.index < length bs)
  unfolding select
  select-total bs s h =
      (get_elem?-total bs (s.index % length bs) (mod-lt s.index h), mod-lt (s.index + 1) h)

  pub select-In :
      (bs : List A) (s : RoundRobin)
      → 0 < length bs
      → (b : A) × ((select bs s).0 ≡ some b) × In b bs
  unfolding select
  select-In bs s h =
      let (b, e) = get_elem?-total bs (s.index % length bs) (mod-lt s.index h) in
      (b, e, get_elem?-In bs (s.index % length bs) e)

  take-drop_step :
      (n i : ℕ) (bs : List A)
      → i < length bs
      → map some (take (suc n) (drop i bs)) ≡ get_elem? bs i ∷ map some (take n (drop (suc i) bs))
  take-drop_step n i [] h = elim h [ ]
  take-drop_step n zero (b ∷ bs) h = refl
  take-drop_step n (suc i) (b ∷ bs) h = take-drop_step n i bs (omega arith)

  next_index : (i : ℕ) (bs : List A) → suc i < length bs → (i + 1) % length bs ≡ suc i
  next_index i bs h = grind (arith, mod-eq_of_lt)

  choices_run :
      (n i : ℕ) (bs : List A)
      → i + n ≤ length bs
      → choices n bs (record { index = i }) ≡ map some (take n (drop i bs))
  unfolding choices select
  choices_run zero i bs h = refl
  choices_run (suc zero) i bs h =
      rw (take-drop_step 0 i bs (omega arith), mod-eq_of_lt {n = i} {m = length bs} (omega arith))
  choices_run (suc (suc n)) i bs h =
      rw
        (
          take-drop_step (suc n) i bs (omega arith),
          mod-eq_of_lt {n = i} {m = length bs} (omega arith),
          next_index i bs (omega arith),
        )
        (ap (◌∷◌ (get_elem? bs i)) (choices_run (suc n) (suc i) bs (omega arith)))

  -- From index `i` the first `n + 1` calls run to the end of the list, and the others start over.
  choices_wrap :
      (n m k i : ℕ) (bs : List A)
      → i + suc n ≡ length bs
      → k ≡ suc n + m
      → choices k bs (record { index = i })
        ≡ map some (take (suc n) (drop i bs)) ++ choices m bs (record { index = 0 })
  unfolding choices select
  choices_wrap n m zero i bs h e = absurd (omega arith)
  choices_wrap zero m (suc k) i bs h e =
      let wraps : (i + 1) % length bs ≡ 0 = grind (arith, mod_self) in
      let rest : k ≡ m = omega arith in
      rw (
        take-drop_step 0 i bs (omega arith),
        mod-eq_of_lt {n = i} {m = length bs} (omega arith),
        wraps,
        rest,
      )
  choices_wrap (suc n) m (suc k) i bs h e =
      rw
        (
          take-drop_step (suc n) i bs (omega arith),
          mod-eq_of_lt {n = i} {m = length bs} (omega arith),
          next_index i bs (omega arith),
        )
        (ap (◌∷◌ (get_elem? bs i)) (choices_wrap n m k (suc i) bs (omega arith) (omega arith)))

  take-all : (n : ℕ) (xs : List A) → length xs ≤ n → take n xs ≡ xs
  take-all zero [] h = refl
  take-all zero (x ∷ xs) h = elim h [ ]
  take-all (suc n) [] h = refl
  take-all (suc n) (x ∷ xs) h = ap (◌∷◌ x) (take-all n xs (omega arith))

  -- From an index within the list, a round of calls on one list of backends chooses each of them
  -- once, in their order from the
  -- index on.
  pub choices_round :
      (bs : List A) (s : RoundRobin)
      → s.index < length bs
      → choices (length bs) bs s ≡ map some (drop s.index bs ++ take s.index bs)
  choices_round bs s h =
      let n = length bs - s.index - 1 in
      rw (
        choices_wrap n s.index (length bs) s.index bs (omega arith) (omega arith),
        choices_run s.index 0 bs (omega arith),
        take-all (suc n) (drop s.index bs) (omega (arith, length-drop s.index bs)),
        map-append,
      )
