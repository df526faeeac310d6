-- ===== src/Security/Log.antt =====
-- The window of the security log.
use sentinel_adc.Base.{
  ℕ, suc, zero, ◌≤◌, ◌≡◌, refl, ap, ◌++◌, String, List, [], ◌∷◌, Dict, length, take, ltb, ◌-◌,
  arith, if◌then◌else◌, Bool-cases, inl, inr,
}
use sentinel_adc.Http.{Request, Strings}
use sentinel_adc.Security.{Event, Stamp, log_event, limit}

-- A call of `logEvent`, and the entry that it makes.
pub record Call : Type 0 where
  pub stamp : Stamp
  pub kind : String
  pub request : Request
  pub details : Dict String

-- All calls, the latest first.
abbrev pub log_all : Strings → List Call → List Event
log_all strings [] = []
log_all strings (c ∷ cs) = log_event strings c.stamp c.kind c.request c.details (log_all strings cs)

-- Every entry that was ever made, the latest first.
abbrev pub entries : Strings → List Call → List Event
unfolding log_event
entries strings [] = []
entries strings (c ∷ cs) =
    log_event strings c.stamp c.kind c.request c.details [] ++ entries strings cs

length-take-le {ℓ} : {A : Type ℓ} (n : ℕ) (xs : List A) → length (take n xs) ≤ n
length-take-le zero xs = omega arith
length-take-le (suc n) [] = omega arith
length-take-le (suc n) (x ∷ xs) = omega (arith, length-take-le n xs)

take-take {ℓ} : {A : Type ℓ} (n : ℕ) (xs : List A) → take n (take (suc n) xs) ≡ take n xs
take-take zero xs = refl
take-take (suc n) [] = refl
take-take (suc n) (x ∷ xs) = ap (λ ys. x ∷ ys) (take-take n xs)

take-suc {ℓ} :
    {A : Type ℓ} (n : ℕ) (xs : List A) → length (take (suc n) xs) ≤ n → take (suc n) xs ≡ take n xs
take-suc zero [] h = refl
take-suc zero (x ∷ xs) h = ground arith
take-suc (suc n) [] h = refl
take-suc (suc n) (x ∷ xs) h = ap (λ ys. x ∷ ys) (take-suc n xs (omega arith))

-- One entry put before a window of the last `n + 1`.
abbrev push {ℓ} : {A : Type ℓ} → ℕ → A → List A → List A
push n x xs = if ltb (suc n) (length (x ∷ xs)) then take (length (x ∷ xs) - 1) (x ∷ xs) else x ∷ xs

push-take {ℓ} :
    {A : Type ℓ} (n : ℕ) (x : A) (xs : List A) → push n x (take (suc n) xs) ≡ take (suc n) (x ∷ xs)
push-take n x xs = elim (Bool-cases (ltb (suc n) (suc (length (take (suc n) xs))))) [
  | inl full ↦
      let e : length (take (suc n) xs) ≡ suc n = ground (arith, length-take-le (suc n) xs) in
      let k : suc (length (take (suc n) xs)) - 1 ≡ suc n = omega (arith, e) in
      rw full (rw k (ap (λ ys. x ∷ ys) (take-take n xs)))
  | inr room ↦ rw room (ap (λ ys. x ∷ ys) (take-suc n xs (ground arith)))
]

-- The log is always the window of the last hundred entries, the latest first, with none of them changed
-- or left out.
pub log_all-take :
    (strings : Strings) (cs : List Call) → log_all strings cs ≡ take limit (entries strings cs)
unfolding log_event
log_all-take strings [] = refl
log_all-take strings (c ∷ cs) = rw (log_all-take strings cs) (push-take 99 _ (entries strings cs))
