-- ===== src/Metrics/Windows.antt =====
-- The window of samples of a backend.
use sentinel_adc.Base.{
  ℕ, zero, suc, ◌-◌, ◌≤◌, ◌≡◌, Bool, true, Option, none, some, List, [], ◌∷◌, ◌++◌, arith, length,
  filter, drop, All, ltb, Bool-cases, inl, inr, lookup, insert, lookup-insert_self, String,
  length-drop,
}
use sentinel_adc.Metrics.{Sample, MetricsStore, record_transaction, clean, is_recent, sample_limit}

All-recent :
    (now : ℕ) (xs : List Sample) → All (λ s. is_recent now s ≡ true) (filter (is_recent now) xs)
unfolding filter
All-recent now [] = tt
All-recent now (s ∷ xs) = elim (Bool-cases (is_recent now s)) [
  | inl e ↦ rw e (e, All-recent now xs)
  | inr e ↦ rw e (All-recent now xs)
]

All-drop {ℓ κ} : {A : Type ℓ} (P : A → Type κ) (n : ℕ) (xs : List A) → All P xs → All P (drop n xs)
All-drop P zero xs a = a
All-drop P (suc n) [] a = a
All-drop P (suc n) (x ∷ xs) a = All-drop P n xs a.1

-- At most 100 samples, none older than the window of a minute.
abbrev pub IsWindow : ℕ → Option (List Sample) → Type 0
IsWindow now none = ⊥
IsWindow now (some xs) = (length xs ≤ sample_limit) × All (λ s. is_recent now s ≡ true) xs

clean-IsWindow : (now : ℕ) (xs : List Sample) → IsWindow now (some (clean now xs))
unfolding clean
clean-IsWindow now xs = elim (Bool-cases (ltb sample_limit (length (filter (is_recent now) xs)))) [
  | inl e ↦ rw e (
    ground
        (arith, length-drop (length (filter (is_recent now) xs) - 100) (filter (is_recent now) xs)),
    All-drop _ _ _ (All-recent now xs),
  )
  | inr e ↦ rw e (ground arith, All-recent now xs)
]

-- After a transaction of a backend of the store, its window has at most 100 samples, and all of them
-- are of the last minute.
pub record_transaction-IsWindow :
    (id : String) (latency : ℕ) (error : Bool) (now at : ℕ) (st : MetricsStore) (xs : List Sample)
    → lookup id st.history ≡ some xs
    → IsWindow at (lookup id (record_transaction id latency error now at st).history)
unfolding record_transaction
record_transaction-IsWindow id latency error now at st xs e =
    let new = xs ++ record { latency = latency; error = error; timestamp = now } ∷ [] in
    rw
      (
        e,
        lookup-insert_self id new st.history,
        lookup-insert_self id (clean at new) (insert id new st.history),
      )
      (clean-IsWindow at new)
