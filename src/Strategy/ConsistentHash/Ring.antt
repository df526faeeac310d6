-- ===== src/Strategy/ConsistentHash/Ring.antt =====
-- The ring is sorted, and removing a backend from the pool removes its entries from the ring.
use sentinel_adc.Base.{
  ℕ, zero, suc, ◌+◌, ◌*◌, ◌≤◌, ◌<◌, ◌≡◌, refl, ap, ◌∙◌, Bool, true, false, not, String, List, [],
  ◌∷◌, ◌++◌, arith, length, if◌then◌else◌, All, filter, Bool-cases, inl, inr, str_eq, max,
  length-append,
}
use sentinel_adc.Pool.{Backend}
use sentinel_adc.Strategy.ConsistentHash.{Entry, insert, sort, vnodes, push_all, build_ring}
use sentinel_adc.Strategy.ConsistentHash.Search.{Sorted}

All-insert :
    (h : ℕ) (e : Entry) (es : List Entry)
    → h ≤ e.hash
    → All (λ x. h ≤ x.hash) es
    → All (λ x. h ≤ x.hash) (insert e es)
unfolding insert
All-insert h e [] le a = (le, tt)
All-insert h e (x ∷ xs) le a = ground (arith, All-insert h e xs le a.1)

All-le : (h k : ℕ) (es : List Entry) → h ≤ k → All (λ x. k ≤ x.hash) es → All (λ x. h ≤ x.hash) es
All-le h k [] le a = tt
All-le h k (x ∷ xs) le a = (omega arith, All-le h k xs le a.1)

insert-Sorted : (e : Entry) (es : List Entry) → Sorted es → Sorted (insert e es)
unfolding insert
insert-Sorted e [] s = (tt, tt)
insert-Sorted e (x ∷ xs) s =
    ground (arith, insert-Sorted e xs s.1, All-insert x.hash e xs, All-le e.hash x.hash xs)

pub sort-Sorted : (es : List Entry) → Sorted (sort es)
unfolding sort
sort-Sorted [] = tt
sort-Sorted (e ∷ es) = insert-Sorted e (sort es) (sort-Sorted es)

length-insert : (e : Entry) (es : List Entry) → length (insert e es) ≡ suc (length es)
unfolding insert
length-insert e [] = refl
length-insert e (x ∷ xs) = ground (arith, length-insert e xs)

pub length-sort : (es : List Entry) → length (sort es) ≡ length es
unfolding sort
length-sort [] = refl
length-sort (e ∷ es) = length-insert e (sort es) ∙ ap suc (length-sort es)

module _ (p : Entry → Bool) where
  insert-before :
      (e : Entry) (es : List Entry) → All (λ x. e.hash ≤ x.hash) es → insert e es ≡ e ∷ es
  unfolding insert
  insert-before e [] a = refl
  insert-before e (x ∷ xs) a = ground arith

  All-filter :
      (h : ℕ) (es : List Entry) → All (λ x. h ≤ x.hash) es → All (λ x. h ≤ x.hash) (filter p es)
  unfolding filter
  All-filter h [] a = tt
  All-filter h (x ∷ xs) a = ground (arith, All-filter h xs a.1)

  filter-insert_kept :
      (e : Entry) (es : List Entry)
      → Sorted es
      → p e ≡ true
      → filter p (insert e es) ≡ insert e (filter p es)
  unfolding insert filter
  filter-insert_kept e [] s k = ground arith
  filter-insert_kept e (x ∷ xs) s k = ground (
    arith,
    filter-insert_kept e xs s.1 k,
    insert-before e (filter p xs),
    All-filter e.hash xs,
    All-le e.hash x.hash xs,
  )

  filter-insert_dropped :
      (e : Entry) (es : List Entry) → p e ≡ false → filter p (insert e es) ≡ filter p es
  unfolding insert filter
  filter-insert_dropped e [] k = ground arith
  filter-insert_dropped e (x ∷ xs) k = ground (arith, filter-insert_dropped e xs k)

  -- Sorting commutes with filtering, since it is stable.
  pub filter-sort : (es : List Entry) → filter p (sort es) ≡ sort (filter p es)
  unfolding sort filter
  filter-sort [] = refl
  filter-sort (e ∷ es) = elim (Bool-cases (p e)) [
    | inl k ↦ rw (k, ← filter-sort es) (filter-insert_kept e (sort es) (sort-Sorted es) k)
    | inr k ↦ rw (k, ← filter-sort es) (filter-insert_dropped e (sort es) k)
  ]

  filter-append : (xs ys : List Entry) → filter p (xs ++ ys) ≡ filter p xs ++ filter p ys
  unfolding filter
  filter-append [] ys = refl
  filter-append (x ∷ xs) ys = ground (arith, filter-append xs ys)

-- The tests that leave a backend and its entries out.
abbrev pub stays : String → Backend → Bool
stays gone b = not (str_eq b.id gone)

abbrev pub entry_stays : String → Entry → Bool
entry_stays gone e = not (str_eq e.backend_id gone)

module _ (hash32 : String → ℕ) (show : ℕ → String) (per_weight : ℕ) where
  filter-vnodes :
      (gone id : String) (i n : ℕ)
      → filter (entry_stays gone) (vnodes hash32 show per_weight id i n)
        ≡ (if not (str_eq id gone) then vnodes hash32 show per_weight id i n else [])
  unfolding filter vnodes
  filter-vnodes gone id i zero = ground arith
  filter-vnodes gone id i (suc n) = ground (arith, filter-vnodes gone id (i + 1) n)

  filter-push_all :
      (gone : String) (bs : List Backend)
      → filter (entry_stays gone) (push_all hash32 show per_weight bs)
        ≡ push_all hash32 show per_weight (filter (stays gone) bs)
  unfolding filter push_all
  filter-push_all gone [] = refl
  filter-push_all gone (b ∷ bs) =
      let entries = vnodes hash32 show per_weight b.id 0 (per_weight * max 1 b.weight) in
      elim (Bool-cases (str_eq b.id gone)) [
        | inl e ↦
            rw
              (
                filter-append (entry_stays gone) entries (push_all hash32 show per_weight bs),
                filter-vnodes gone b.id 0 (per_weight * max 1 b.weight),
                e,
              )
              (filter-push_all gone bs)
        | inr e ↦
            rw
              (
                filter-append (entry_stays gone) entries (push_all hash32 show per_weight bs),
                filter-vnodes gone b.id 0 (per_weight * max 1 b.weight),
                e,
              )
              (ap (◌++◌ entries) (filter-push_all gone bs))
      ]

  length-vnodes : (id : String) (i n : ℕ) → length (vnodes hash32 show per_weight id i n) ≡ n
  unfolding vnodes
  length-vnodes id i zero = refl
  length-vnodes id i (suc n) = ap suc (length-vnodes id (i + 1) n)

  -- The ring is sorted by its hashes.
  pub build_ring-Sorted : (bs : List Backend) → Sorted (build_ring hash32 show per_weight bs)
  unfolding build_ring
  build_ring-Sorted bs = sort-Sorted (push_all hash32 show per_weight bs)

  -- Without a backend the ring is the old one without that backend's entries.
  pub build_ring-filter :
      (gone : String) (bs : List Backend)
      → build_ring hash32 show per_weight (filter (stays gone) bs)
        ≡ filter (entry_stays gone) (build_ring hash32 show per_weight bs)
  unfolding build_ring
  build_ring-filter gone bs =
      rw (
        filter-sort (entry_stays gone) (push_all hash32 show per_weight bs),
        filter-push_all gone bs,
      )

  -- A backend of weight `w` has `vnodesPerWeight * max(1, w)` virtual nodes on the ring.
  push_all_nonempty :
      (bs : List Backend)
      → 0 < per_weight
      → 0 < length bs
      → 0 < length (push_all hash32 show per_weight bs)
  unfolding push_all
  push_all_nonempty [] p h = elim h [ ]
  push_all_nonempty (b ∷ bs) p h =
      let n = per_weight * max 1 b.weight in
      let entries = vnodes hash32 show per_weight b.id 0 n in
      grind
        (arith, length-append entries (push_all hash32 show per_weight bs), length-vnodes b.id 0 n)

  pub build_ring_nonempty :
      (bs : List Backend)
      → 0 < per_weight
      → 0 < length bs
      → 0 < length (build_ring hash32 show per_weight bs)
  unfolding build_ring
  build_ring_nonempty bs p h =
      rw (length-sort (push_all hash32 show per_weight bs)) (push_all_nonempty bs p h)
