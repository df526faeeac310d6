-- ===== src/Api/Resetting.antt =====
-- The reset of all circuit breakers.
use sentinel_adc.Base.{
  ℕ, ◌≡◌, ◌≢◌, ◌⊎◌, inl, inr, refl, ap, ◌∙◌, subst, String, false, none, List, [], ◌∷◌, Bool-cases,
  Dict, lookup, str_eq, str_eq_iff, map,
}
use sentinel_adc.Circuit.{Manager, Snapshot, Breaker, get_all_states, reset, snapshot}
use sentinel_adc.Circuit.Steps.{normal, view, view_breaker, view-resets, view-step_ne, resets, step}
use sentinel_adc.Api.{reset_each, reset_all}

-- A breaker of the list is as new; the others are as they were.
view-reset_ne :
    (id j : String) (now at : ℕ) (m : Manager) → id ≢ j → view j (reset id now at m).1 ≡ view j m
view-reset_ne id j now at m h = ap view_breaker (unfold step in view-step_ne id j resets now at m h)

differs : (id j : String) → str_eq id j ≡ false → id ≢ j
differs id j h e = cc ((str_eq_iff id j).1 e)

reset_normal :
    (id j : String) (now at : ℕ) (m : Manager)
    → view j m ≡ normal 0
    → view j (reset id now at m).1 ≡ normal 0
reset_normal id j now at m h = elim (Bool-cases (str_eq id j)) [
  | inl same ↦
      subst (λ k. view k (reset id now at m).1 ≡ normal 0) ((str_eq_iff id j).0 same)
        (view-resets id now at m)
  | inr other ↦ view-reset_ne id j now at m (differs id j other) ∙ h
]

reset_each-normal :
    (j : String) (ss : List Snapshot) (now at : ℕ) (m : Manager)
    → view j m ≡ normal 0
    → view j (reset_each ss now at m) ≡ normal 0
unfolding reset_each
reset_each-normal j [] now at m h = h
reset_each-normal j (s ∷ ss) now at m h =
    reset_each-normal j ss now at (reset s.backend_id now at m).1
      (reset_normal s.backend_id j now at m h)

-- The snapshots have the identifiers of the map.
abbrev Names : String → List Snapshot → Type 0
Names j [] = ⊥
Names j (s ∷ ss) = (s.backend_id ≡ j) ⊎ Names j ss

reset_each-named :
    (j : String) (ss : List Snapshot) (now at : ℕ) (m : Manager)
    → Names j ss
    → view j (reset_each ss now at m) ≡ normal 0
unfolding reset_each
reset_each-named j [] now at m h = elim h [ ]
reset_each-named j (s ∷ ss) now at m (inl e) =
    reset_each-normal j ss now at (reset s.backend_id now at m).1 (
      subst (λ k. view k (reset s.backend_id now at m).1 ≡ normal 0) e
        (view-resets s.backend_id now at m))
reset_each-named j (s ∷ ss) now at m (inr h) =
    reset_each-named j ss now at (reset s.backend_id now at m).1 h

named-or_none :
    (j : String) (now : ℕ) (m : Manager) (bs : Dict Breaker)
    → Names j (map (snapshot m now) bs) ⊎ (lookup j bs ≡ none)
unfolding lookup snapshot
named-or_none j now m [] = inr refl
named-or_none j now m ((id, b) ∷ bs) = elim (Bool-cases (str_eq id j)) [
  | inl same ↦ inl (inl ((str_eq_iff id j).0 same))
  | inr other ↦ elim (named-or_none j now m bs) [
    | inl h ↦ inl (inr h)
    | inr absent ↦ inr (rw other absent)
  ]
]

-- After the route has reset all breakers, every backend's breaker is closed with no failure counted,
-- whatever its state was.
pub reset_all-normal :
    (j : String) (now at : ℕ) (m : Manager) → view j (reset_all now at m).1 ≡ normal 0
unfolding reset_all get_all_states
reset_all-normal j now at m = elim (named-or_none j now m m.breakers) [
  | inl h ↦ reset_each-named j (map (snapshot m now) m.breakers) now at m h
  | inr absent ↦
      reset_each-normal j (map (snapshot m now) m.breakers) now at m (ap view_breaker absent)
]
