-- ===== src/Strategy/ConsistentHash/Search.antt =====
-- The binary search finds the first entry clockwise.
use sentinel_adc.Base.{
  ℕ, zero, suc, ◌+◌, ◌-◌, ◌/◌, ◌≤◌, ◌<◌, ◌≡◌, refl, Option, none, some, List, [], ◌∷◌, arith,
  length, get_elem?, ltb, if◌then◌else◌, All, ◌⊎◌, inl, inr, Bool-cases,
}
use sentinel_adc.Strategy.ConsistentHash.{Entry, hash_at, search_loop, find_ring_index}

abbrev pub Sorted : List Entry → Type 0
Sorted [] = Unit
Sorted (e ∷ es) = All (λ x. e.hash ≤ x.hash) es × Sorted es

-- The entries before the first whose hash is at least the target.
abbrev rank : ℕ → List Entry → ℕ
rank t [] = 0
rank t (e ∷ es) = if ltb e.hash t then suc (rank t es) else 0

-- The first entry whose hash is at least the target.
abbrev pub at_least : ℕ → List Entry → Option Entry
at_least t [] = none
at_least t (e ∷ es) = if ltb e.hash t then at_least t es else some e

abbrev pub first : List Entry → Option Entry
first [] = none
first (e ∷ es) = some e

abbrev or_else : Option Entry → Option Entry → Option Entry
or_else none b = b
or_else (some a) b = some a

-- The entry that is met first on the way clockwise from the target, around the ring.
abbrev pub clockwise : ℕ → List Entry → Option Entry
clockwise t ring = or_else (at_least t ring) (first ring)

rank-le : (t : ℕ) (ring : List Entry) → rank t ring ≤ length ring
rank-le t [] = omega arith
rank-le t (e ∷ es) = ground (arith, rank-le t es)

hash_at-All :
    (h i : ℕ) (ring : List Entry)
    → All (λ x. h ≤ x.hash) ring
    → i < length ring
    → h ≤ hash_at ring i
unfolding hash_at
hash_at-All h i [] a l = elim l [ ]
hash_at-All h zero (e ∷ es) a l = a.0
hash_at-All h (suc i) (e ∷ es) a l = hash_at-All h i es a.1 (omega arith)

below_rank : (t i : ℕ) (ring : List Entry) → i < rank t ring → hash_at ring i < t
unfolding hash_at
below_rank t i [] h = elim h [ ]
below_rank t zero (e ∷ es) h = ground arith
below_rank t (suc i) (e ∷ es) h = ground (arith, below_rank t i es)

from_rank :
    (t i : ℕ) (ring : List Entry)
    → Sorted ring
    → rank t ring ≤ i
    → i < length ring
    → t ≤ hash_at ring i
unfolding hash_at
from_rank t i [] s h l = elim l [ ]
from_rank t zero (e ∷ es) s h l = ground arith
from_rank t (suc i) (e ∷ es) s h l =
    ground (arith, from_rank t i es s.1, hash_at-All e.hash i es s.0)

search_loop_lem :
    (fuel t low over result : ℕ) (ring : List Entry)
    → Sorted ring
    → rank t ring < length ring
    → over < fuel + low
    → low ≤ rank t ring
    → rank t ring ≤ over
    → over ≤ length ring
    → (over ≡ length ring) ⊎ (result ≡ over)
    → search_loop fuel ring t low over result ≡ rank t ring
unfolding search_loop
search_loop_lem zero t low over result ring s r f l o n e = absurd (omega arith)
search_loop_lem (suc fuel) t low over result ring s r f l o n e = ground (
  arith,
  below_rank t ((low + (over - 1)) / 2) ring,
  from_rank t ((low + (over - 1)) / 2) ring s,
  search_loop_lem fuel t low ((low + (over - 1)) / 2) ((low + (over - 1)) / 2) ring s r,
  search_loop_lem fuel t ((low + (over - 1)) / 2 + 1) over result ring s r,
)

get_elem?-rank : (t : ℕ) (ring : List Entry) → get_elem? ring (rank t ring) ≡ at_least t ring
get_elem?-rank t [] = refl
get_elem?-rank t (e ∷ es) = ground (arith, get_elem?-rank t es)

at_least-none : (t : ℕ) (ring : List Entry) → rank t ring ≡ length ring → at_least t ring ≡ none
at_least-none t [] h = refl
at_least-none t (e ∷ es) h = ground (arith, at_least-none t es)

at_least-some :
    (t : ℕ) (ring : List Entry)
    → rank t ring < length ring
    → (e : Entry) × (at_least t ring ≡ some e)
at_least-some t [] h = elim h [ ]
at_least-some t (e ∷ es) h = elim (Bool-cases (ltb e.hash t)) [
  | inl low ↦ rw low (at_least-some t es (ground arith))
  | inr high ↦ rw high (e, refl)
]

get_elem?-first : (ring : List Entry) → get_elem? ring 0 ≡ first ring
get_elem?-first [] = refl
get_elem?-first (e ∷ es) = refl

-- On a sorted ring that is not empty the index that the binary search returns is that of the first entry clockwise:
-- the first with a hash of at least the target, or else the first of the ring.
pub find_ring_index-clockwise :
    (ring : List Entry) (t : ℕ)
    → Sorted ring
    → 0 < length ring
    → get_elem? ring (find_ring_index ring t) ≡ clockwise t ring
unfolding find_ring_index
find_ring_index-clockwise ring t s h = elim (Bool-cases (ltb (hash_at ring (length ring - 1)) t)) [
  | inl wraps ↦
      let full : rank t ring ≡ length ring =
        ground (arith, from_rank t (length ring - 1) ring s, rank-le t ring) in
      rw (wraps, at_least-none t ring full) (get_elem?-first ring)
  | inr inside ↦
      let some_left : rank t ring < length ring =
        ground (arith, below_rank t (length ring - 1) ring, rank-le t ring) in
      let (e, found) = at_least-some t ring some_left in
      let index =
        search_loop_lem (length ring + 1) t 0 (length ring) 0 ring s some_left (omega arith)
          (omega arith) (rank-le t ring) (omega arith) (inl refl) in
      rw (inside, index, get_elem?-rank t ring, found)
]
