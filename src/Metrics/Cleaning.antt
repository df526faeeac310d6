-- ===== src/Metrics/Cleaning.antt =====
-- Cleaning after every transaction keeps what one cleaning of the whole log keeps.
use sentinel_adc.Base.{
  ℕ, zero, suc, ◌+◌, ◌-◌, ◌≤◌, ◌<◌, ◌≡◌, refl, ap, sym, ◌∙◌, max, Bool, List, [], ◌∷◌, ◌++◌, arith,
  length, filter, drop, All, if◌then◌else◌, Bool-cases, inl, inr, length-drop, length-append,
  String, some, lookup, insert, lookup-insert_self,
}
use sentinel_adc.Metrics.{Sample, MetricsStore, record_transaction, clean, is_recent, sample_limit}
use sentinel_adc.Health.Window.{drop-append, drop-index}

-- The times of the samples do not fall.
abbrev pub Chronological : List Sample → Type 0
Chronological [] = Unit
Chronological (s ∷ xs) = All (λ x. s.timestamp ≤ x.timestamp) xs × Chronological xs

-- The samples before the first recent one.
abbrev pub stale : ℕ → List Sample → ℕ
stale now [] = 0
stale now (s ∷ xs) = if is_recent now s then 0 else suc (stale now xs)

filter-later :
    (now t : ℕ) (xs : List Sample)
    → now < t + 60000
    → All (λ x. t ≤ x.timestamp) xs
    → filter (is_recent now) xs ≡ xs
unfolding filter
filter-later now t [] h a = refl
filter-later now t (s ∷ xs) h a = ground (arith, filter-later now t xs h a.1)

filter-stale :
    (now : ℕ) (xs : List Sample)
    → Chronological xs
    → filter (is_recent now) xs ≡ drop (stale now xs) xs
unfolding filter
filter-stale now [] c = refl
filter-stale now (s ∷ xs) c = elim (Bool-cases (is_recent now s)) [
  | inl e ↦ rw (e, filter-later now s.timestamp xs (ground arith) c.0)
  | inr e ↦ rw (e, filter-stale now xs c.1)
]

drop-empty {ℓ} : {A : Type ℓ} (n : ℕ) → drop {A = A} n [] ≡ []
drop-empty zero = refl
drop-empty (suc n) = refl

drop-drop_sum {ℓ} :
    {A : Type ℓ} (m n k : ℕ) (xs : List A) → k ≡ n + m → drop m (drop n xs) ≡ drop k xs
drop-drop_sum m zero k xs e = drop-index m k xs (omega arith)
drop-drop_sum m (suc n) k [] e = drop-empty m ∙ sym (drop-empty k)
drop-drop_sum m (suc n) zero (x ∷ xs) e = absurd (omega arith)
drop-drop_sum m (suc n) (suc k) (x ∷ xs) e = drop-drop_sum m n k xs (omega arith)

-- How many samples a cleaning drops.
abbrev dropped : ℕ → List Sample → ℕ
dropped now xs = max (stale now xs) (length xs - sample_limit)

clean-drop :
    (now : ℕ) (xs : List Sample) → Chronological xs → clean now xs ≡ drop (dropped now xs) xs
unfolding clean
clean-drop now xs c = rw (filter-stale now xs c) (
    ground (
      arith,
      length-drop (stale now xs) xs,
      drop-drop_sum (length (drop (stale now xs) xs) - 100) (stale now xs)
          (max (stale now xs) (length xs - 100)) xs,
      drop-index (stale now xs) (max (stale now xs) (length xs - 100)) xs,
    ))

stale-later :
    (now t n : ℕ) (xs : List Sample)
    → now < t + 60000
    → All (λ x. t ≤ x.timestamp) xs
    → stale now (drop n xs) ≡ 0
stale-later now t zero [] h a = refl
stale-later now t zero (s ∷ xs) h a = ground arith
stale-later now t (suc n) [] h a = refl
stale-later now t (suc n) (s ∷ xs) h a = stale-later now t n xs h a.1

stale-drop :
    (now n : ℕ) (xs : List Sample) → Chronological xs → stale now (drop n xs) ≡ stale now xs - n
stale-drop now zero xs c = omega arith
stale-drop now (suc n) [] c = omega arith
stale-drop now (suc n) (s ∷ xs) c =
    ground (arith, stale-drop now n xs c.1, stale-later now s.timestamp n xs)

Chronological-drop : (n : ℕ) (xs : List Sample) → Chronological xs → Chronological (drop n xs)
Chronological-drop zero xs c = c
Chronological-drop (suc n) [] c = c
Chronological-drop (suc n) (s ∷ xs) c = Chronological-drop n xs c.1

-- What a cleaning drops may have been dropped before.
clean-drop_before :
    (at k : ℕ) (xs : List Sample)
    → Chronological xs
    → k ≤ dropped at xs
    → clean at (drop k xs) ≡ clean at xs
clean-drop_before at k xs c h =
    clean-drop at (drop k xs) (Chronological-drop k xs c)
    ∙ drop-drop_sum (dropped at (drop k xs)) k (dropped at xs) xs
        (omega (arith, stale-drop at k xs c, length-drop k xs))
    ∙ sym (clean-drop at xs c)

stale_mono :
    (now at : ℕ) (xs : List Sample) (s : Sample) → now ≤ at → stale now xs ≤ stale at (xs ++ s ∷ [])
stale_mono now at [] s h = omega arith
stale_mono now at (x ∷ xs) s h = ground (arith, stale_mono now at xs s h)

stale-le : (now : ℕ) (xs : List Sample) → stale now xs ≤ length xs
stale-le now [] = omega arith
stale-le now (x ∷ xs) = ground (arith, stale-le now xs)

Chronological-before :
    (xs : List Sample) (s : Sample) → Chronological (xs ++ s ∷ []) → Chronological xs
Chronological-before [] s c = tt
Chronological-before (x ∷ xs) s c = (All-before xs c.0, Chronological-before xs s c.1)
  where
    All-before :
        (ys : List Sample)
        → All (λ y. x.timestamp ≤ y.timestamp) (ys ++ s ∷ [])
        → All (λ y. x.timestamp ≤ y.timestamp) ys
    All-before [] a = tt
    All-before (y ∷ ys) a = (a.0, All-before ys a.1)

clean-clean :
    (now at : ℕ) (xs : List Sample) (s : Sample)
    → now ≤ at
    → Chronological (xs ++ s ∷ [])
    → clean at (clean now xs ++ s ∷ []) ≡ clean at (xs ++ s ∷ [])
clean-clean now at xs s h c =
    let n = dropped now xs in
    let fits : n ≤ length xs = omega (arith, stale-le now xs) in
    ap (λ l. clean at (l ++ s ∷ [])) (clean-drop now xs (Chronological-before xs s c))
    ∙ ap (clean at) (sym (drop-append n xs (s ∷ []) fits))
    ∙ clean-drop_before at n (xs ++ s ∷ []) c
        (omega (arith, stale_mono now at xs s h, length-append xs (s ∷ [])))

-- Transactions of one backend, the latest first: the latency, the error and the two readings of the
-- clock of each.
abbrev pub Log : Type 0
Log = List (ℕ × Bool × ℕ × ℕ)

abbrev pub record_transactions : String → Log → MetricsStore → MetricsStore
record_transactions id [] st = st
record_transactions id ((latency, error, now, at) ∷ older) st =
    record_transaction id latency error now at (record_transactions id older st)

-- All their samples, the oldest first.
abbrev pub samples : Log → List Sample
samples [] = []
samples ((latency, error, now, at) ∷ older) =
    samples older ++ record { latency = latency; error = error; timestamp = now } ∷ []

abbrev pub last_cleaning : Log → ℕ
last_cleaning [] = 0
last_cleaning ((latency, error, now, at) ∷ older) = at

-- The times of the cleanings do not fall.
abbrev pub Clocked : Log → Type 0
Clocked [] = Unit
Clocked ((latency, error, now, at) ∷ older) = (last_cleaning older ≤ at) × Clocked older

history-record_transaction :
    (id : String) (latency : ℕ) (error : Bool) (now at : ℕ) (st : MetricsStore) (xs : List Sample)
    → lookup id st.history ≡ some xs
    → lookup id (record_transaction id latency error now at st).history
      ≡ some (clean at (xs ++ record { latency = latency; error = error; timestamp = now } ∷ []))
unfolding record_transaction
history-record_transaction id latency error now at st xs e =
    let new = xs ++ record { latency = latency; error = error; timestamp = now } ∷ [] in
    rw (
      e,
      lookup-insert_self id new st.history,
      lookup-insert_self id (clean at new) (insert id new st.history),
    )

-- Recording transactions of a backend that has no sample yet, at times that do not fall, keeps just
-- what one cleaning of all their samples keeps, at the time of the last transaction's cleaning.
pub record_transactions-clean :
    (id : String) (log : Log) (st : MetricsStore)
    → lookup id st.history ≡ some []
    → Chronological (samples log)
    → Clocked log
    → lookup id (record_transactions id log st).history
      ≡ some (clean (last_cleaning log) (samples log))
record_transactions-clean id [] st e c k = e ∙ (unfold clean in unfold filter in refl)
record_transactions-clean id ((latency, error, now, at) ∷ older) st e c k =
    let s : Sample = record { latency = latency; error = error; timestamp = now } in
    let before =
      record_transactions-clean id older st e (Chronological-before (samples older) s c) k.1 in
    history-record_transaction id latency error now at (record_transactions id older st) _ before
    ∙ ap some (clean-clean (last_cleaning older) at (samples older) s k.0 c)
