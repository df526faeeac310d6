-- ===== src/Api/Weights.antt =====
-- What a change of a weight changes.
use sentinel_adc.Base.{
  ℕ, ◌≡◌, refl, subst, Option-cases, String, Option, none, some, [], ◌∷◌, arith, str_eq, str_eq_iff,
  if◌then◌else◌, Bool-cases, inl, inr,
}
use sentinel_adc.Pool.{Pool, Backend, find, modify}
use sentinel_adc.Api.{Served, sends, error, Parsed, negative, natural, change_weight, weight_found}

-- The backend with the new weight, if the request gives a weight.
abbrev pub reweighed : Option Parsed → Option Backend → Option Backend
reweighed none b = b
reweighed (some (negative n)) b = b
reweighed (some (natural n)) none = none
reweighed (some (natural n)) (some b) = some (record b { weight = n })

-- The answer: 400 for a weight that is none, 404 for an unknown backend, and else the backend.
abbrev pub status_of : Served Backend → ℕ
status_of (sends b) = 200
status_of (error code message) = code

abbrev pub expected : Option Parsed → Option Backend → ℕ
expected none b = 400
expected (some (negative n)) b = 400
expected (some (natural n)) none = 404
expected (some (natural n)) (some b) = 200

find-modify_weight :
    (id j : String) (n : ℕ) (p : Pool)
    → find j (modify id (λ k. record k { weight = n }) p)
      ≡ (if str_eq id j then reweighed (some (natural n)) (find j p) else find j p)
unfolding find modify
find-modify_weight id j n [] = ground arith
find-modify_weight id j n (b ∷ bs) =
    ground
      (arith, find-modify_weight id j n bs, str_eq_iff id j, str_eq_iff b.id id, str_eq_iff b.id j)

unchanged :
    (id j : String) (n : ℕ) (p : Pool)
    → find id p ≡ none
    → find j p ≡ (if str_eq id j then reweighed (some (natural n)) (find j p) else find j p)
unchanged id j n p absent = elim (Bool-cases (str_eq id j)) [
  | inl same ↦
      let e : find j p ≡ none = subst (λ k. find k p ≡ none) ((str_eq_iff id j).0 same) absent in
      rw (same, e) refl
  | inr other ↦ rw other refl
]

-- A change of a weight is answered with 400 for what is not a natural number, with 404 for an unknown
-- backend and else with 200; it sets the weight of that backend and changes nothing else of it, and no
-- other backend.
pub change_weight_lem :
    (id j : String) (w : Option Parsed) (p : Pool)
    → (status_of (change_weight id w p).0 ≡ expected w (find id p))
      × (find j (change_weight id w p).1
          ≡ (if str_eq id j then reweighed w (find j p) else find j p))
unfolding change_weight weight_found
change_weight_lem id j none p = ground arith
change_weight_lem id j (some (negative n)) p = ground arith
change_weight_lem id j (some (natural n)) p = elim (Option-cases (find id p)) [
  | inl absent ↦ rw absent (refl, unchanged id j n p absent)
  | inr (b, present) ↦ rw present (refl, find-modify_weight id j n p)
]
