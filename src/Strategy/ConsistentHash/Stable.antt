-- ===== src/Strategy/ConsistentHash/Stable.antt =====
-- Removing a backend moves only the clients that it served.
use sentinel_adc.Base.{
  ℕ, zero, suc, ◌+◌, ◌<◌, ◌≡◌, refl, ap, sym, ◌∙◌, Bool, true, false, String, none, some, List, [],
  ◌∷◌, ◌++◌, arith, length, ltb, ◌==◌, All, filter, Bool-cases, Option-cases, inl, inr, str_eq,
  str_eq_iff, str_eq_refl, is_some,
}
use sentinel_adc.Pool.{Backend, find}
use sentinel_adc.Pool.Laws.{find-id}
use sentinel_adc.Strategy.ConsistentHash.{
  Entry, insert, sort, vnodes, push_all, build_ring, select, pick,
}
use sentinel_adc.Strategy.ConsistentHash.Search.{
  at_least, first, clockwise, find_ring_index-clockwise,
}
use sentinel_adc.Strategy.ConsistentHash.Ring.{
  stays, entry_stays, build_ring-Sorted, build_ring-filter, build_ring_nonempty,
}

module _ (p : Entry → Bool) where
  at_least-filter :
      (t : ℕ) (es : List Entry) (e : Entry)
      → at_least t es ≡ some e
      → p e ≡ true
      → at_least t (filter p es) ≡ some e
  unfolding filter
  at_least-filter t [] e h k = cc
  at_least-filter t (x ∷ xs) e h k = ground (arith, at_least-filter t xs e)

  at_least-filter-none :
      (t : ℕ) (es : List Entry) → at_least t es ≡ none → at_least t (filter p es) ≡ none
  unfolding filter
  at_least-filter-none t [] h = refl
  at_least-filter-none t (x ∷ xs) h = ground (arith, at_least-filter-none t xs)

  first-filter :
      (es : List Entry) (e : Entry) → first es ≡ some e → p e ≡ true → first (filter p es) ≡ some e
  unfolding filter
  first-filter [] e h k = cc
  first-filter (x ∷ xs) e h k = ground arith

  clockwise-filter :
      (t : ℕ) (es : List Entry) (e : Entry)
      → clockwise t es ≡ some e
      → p e ≡ true
      → clockwise t (filter p es) ≡ some e
  clockwise-filter t es e h k =
      ground (arith, at_least-filter t es e, at_least-filter-none t es, first-filter es e)

-- What holds of all entries holds of the one found.
module _ {ℓ} (P : Entry → Type ℓ) where
  All-insert : (e : Entry) (es : List Entry) → P e → All P es → All P (insert e es)
  unfolding insert
  All-insert e [] q a = (q, a)
  All-insert e (x ∷ xs) q a = elim (Bool-cases (ltb x.hash e.hash)) [
    | inl low ↦ rw low (a.0, All-insert e xs q a.1)
    | inr high ↦ rw high (q, a)
  ]

  All-sort : (es : List Entry) → All P es → All P (sort es)
  unfolding sort
  All-sort [] a = a
  All-sort (e ∷ es) a = All-insert e (sort es) a.0 (All-sort es a.1)

  All-append : (xs ys : List Entry) → All P xs → All P ys → All P (xs ++ ys)
  All-append [] ys a b = b
  All-append (x ∷ xs) ys a b = (a.0, All-append xs ys a.1 b)

known_at_least :
    (q : Entry → Bool) (t : ℕ) (es : List Entry) (e : Entry)
    → All (λ x. q x ≡ true) es
    → at_least t es ≡ some e
    → q e ≡ true
known_at_least q t [] e a h = cc
known_at_least q t (x ∷ xs) e a h = ground (arith, known_at_least q t xs e a.1)

known_first :
    (q : Entry → Bool) (es : List Entry) (e : Entry)
    → All (λ x. q x ≡ true) es
    → first es ≡ some e
    → q e ≡ true
known_first q [] e a h = cc
known_first q (x ∷ xs) e a h = ground arith

known_clockwise :
    (q : Entry → Bool) (t : ℕ) (es : List Entry) (e : Entry)
    → All (λ x. q x ≡ true) es
    → clockwise t es ≡ some e
    → q e ≡ true
known_clockwise q t es e a h = ground (arith, known_at_least q t es e a, known_first q es e a)

clockwise-some : (t : ℕ) (es : List Entry) → 0 < length es → is_some (clockwise t es) ≡ true
clockwise-some t [] h = elim h [ ]
clockwise-some t (e ∷ es) h = ground arith

find-filter :
    (i gone : String) (bs : List Backend)
    → str_eq i gone ≡ false
    → find i (filter (stays gone) bs) ≡ find i bs
unfolding find filter
find-filter i gone [] h = refl
find-filter i gone (b ∷ bs) h =
    ground
      (arith, find-filter i gone bs h, str_eq_iff b.id i, str_eq_iff b.id gone, str_eq_iff i gone)

abbrev Knows : List Backend → String → Type 0
Knows bs i = is_some (find i bs) ≡ true

Knows-cons : (b : Backend) (bs : List Backend) (i : String) → Knows bs i → Knows (b ∷ bs) i
unfolding find
Knows-cons b bs i k = ground arith

All-Knows-cons :
    (b : Backend) (bs cs : List Backend)
    → All (λ c. Knows bs c.id) cs
    → All (λ c. Knows (b ∷ bs) c.id) cs
All-Knows-cons b bs [] a = tt
All-Knows-cons b bs (c ∷ cs) a = (Knows-cons b bs c.id a.0, All-Knows-cons b bs cs a.1)

All-known : (bs : List Backend) → All (λ c. Knows bs c.id) bs
unfolding find
All-known [] = tt
All-known (b ∷ bs) = (ground (arith, str_eq_refl b.id), All-Knows-cons b bs bs (All-known bs))

module _ (hash32 : String → ℕ) (show : ℕ → String) (per_weight : ℕ) where
  vnodes-known :
      (all : List Backend) (id : String) (i n : ℕ)
      → Knows all id
      → All (λ e. Knows all e.backend_id) (vnodes hash32 show per_weight id i n)
  unfolding vnodes
  vnodes-known all id i zero k = tt
  vnodes-known all id i (suc n) k = (k, vnodes-known all id (i + 1) n k)

  push_all-known :
      (all bs : List Backend)
      → All (λ c. Knows all c.id) bs
      → All (λ e. Knows all e.backend_id) (push_all hash32 show per_weight bs)
  unfolding push_all
  push_all-known all [] a = tt
  push_all-known all (b ∷ bs) a =
      All-append _ _ _ (vnodes-known all b.id 0 _ a.0) (push_all-known all bs a.1)

  ring-known :
      (bs : List Backend) → All (λ e. Knows bs e.backend_id) (build_ring hash32 show per_weight bs)
  unfolding build_ring
  ring-known bs = All-sort _ _ (push_all-known bs bs (All-known bs))

  -- The client's way clockwise from its hash ends at an entry of the chosen backend.
  pub select-clockwise :
      (key : String) (bs : List Backend)
      → 0 < per_weight
      → 0 < length bs
      → (e : Entry) × (b : Backend) × (clockwise (hash32 key) (build_ring hash32 show per_weight bs)
          ≡ some e)
        × (find e.backend_id bs ≡ some b)
        × (select hash32 show per_weight key bs ≡ some b)
  unfolding select
  select-clockwise key bs p h =
      let ring = build_ring hash32 show per_weight bs in
      let full = build_ring_nonempty hash32 show per_weight bs p h in
      let index =
        find_ring_index-clockwise ring (hash32 key) (build_ring-Sorted hash32 show per_weight bs)
          full in
      elim (Option-cases (clockwise (hash32 key) ring)) [
        | inl e ↦ absurd (ground (arith, clockwise-some (hash32 key) ring full))
        | inr (e, met) ↦ elim (Option-cases (find e.backend_id bs)) [
          | inl lost ↦ absurd (
              ground (
                arith,
                known_clockwise (λ x. is_some (find x.backend_id bs)) (hash32 key) ring e
                    (ring-known bs) met,
              ))
          | inr (b, found) ↦
              let some_backend : (length bs == 0) ≡ false = ground arith in
              let some_entry : (length ring == 0) ≡ false = ground arith in
              (e, b, met, found, rw (some_backend, some_entry, index, met, pick, found))
        ]
      ]

  length-nonempty :
      (bs : List Backend) (i : String) {b : Backend} → find i bs ≡ some b → 0 < length bs
  unfolding find
  length-nonempty [] i h = absurd (cc)
  length-nonempty (x ∷ xs) i h = omega arith

  select-nonempty :
      (key : String) (bs : List Backend) {b : Backend}
      → select hash32 show per_weight key bs ≡ some b
      → 0 < length bs
  unfolding select
  select-nonempty key [] h = absurd (cc)
  select-nonempty key (x ∷ xs) h = omega arith

  -- With at least one virtual node per unit of weight: when a backend leaves the pool, a client whose
  -- backend is another one keeps it.
  pub select-stable :
      (key gone : String) (bs : List Backend) (b : Backend)
      → 0 < per_weight
      → select hash32 show per_weight key bs ≡ some b
      → str_eq b.id gone ≡ false
      → select hash32 show per_weight key (filter (stays gone) bs) ≡ some b
  select-stable key gone bs b p chosen other =
      let (e, b', met, found, sel) = select-clockwise key bs p (select-nonempty key bs chosen) in
      let same : b' ≡ b = ground arith in
      let found_b : find e.backend_id bs ≡ some b = found ∙ ap some same in
      let keeps : str_eq e.backend_id gone ≡ false =
        rw (← find-id e.backend_id bs b found_b) other in
      let met_again =
        clockwise-filter (entry_stays gone) (hash32 key) (build_ring hash32 show per_weight bs) e
          met (rw keeps) in
      let found_again : find e.backend_id (filter (stays gone) bs) ≡ some b =
        find-filter e.backend_id gone bs keeps ∙ found_b in
      let (f, c, met_f, found_f, sel_f) =
        select-clockwise key (filter (stays gone) bs) p
          (length-nonempty (filter (stays gone) bs) e.backend_id found_again) in
      let same_entry : some e ≡ some f =
        sym met_again
        ∙ ap (clockwise (hash32 key)) (sym (build_ring-filter hash32 show per_weight gone bs))
        ∙ met_f in
      ground arith
