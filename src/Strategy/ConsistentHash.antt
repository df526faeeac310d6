-- ===== src/Strategy/ConsistentHash.antt =====
-- Consistent hashing (src/routing/strategies/consistentHash.js). `hash32` is the 32-bit prefix of
-- the MD5 digest, which `node:crypto` computes, and `show` writes a number in decimal; both are any
-- functions here. The client's key, a session header or an address, is an argument.
pub mod Search
pub mod Ring
pub mod Stable
use Prim.Native.String.{◌++◌ as str_append}
use sentinel_adc.Base.{
  ℕ, zero, suc, ◌+◌, ◌-◌, ◌*◌, ◌/◌, String, Bool, true, false, Option, none, some, List, [], ◌∷◌,
  ◌++◌, max, length, get_elem?, ltb, leb, ◌==◌, if◌then◌else◌,
}
use sentinel_adc.Pool.{Backend, find}

-- An entry of the ring.
pub record Entry : Type 0 where
  pub hash : ℕ
  pub backend_id : String

unfoldable pub hash_at : List Entry → ℕ → ℕ
hash_at [] i = 0
hash_at (e ∷ es) zero = e.hash
hash_at (e ∷ es) (suc i) = hash_at es i

-- `while (low <= high)`, with fuel; `over` is `high + 1`, since `high` may become -1.
unfoldable pub search_loop : ℕ → List Entry → ℕ → ℕ → ℕ → ℕ → ℕ
search_loop zero ring target low over result = result
search_loop (suc fuel) ring target low over result =
    let mid = (low + (over - 1)) / 2 in
    let left = search_loop fuel ring target low mid mid in
    let right = search_loop fuel ring target (mid + 1) over result in
    if ltb low over then (if leb target (hash_at ring mid) then left else right) else result

-- `findRingIndex`, on a ring that is not empty.
unfoldable pub find_ring_index : List Entry → ℕ → ℕ
unfolding search_loop hash_at
find_ring_index ring target =
    if ltb (hash_at ring (length ring - 1)) target
    then 0
    else search_loop (length ring + 1) ring target 0 (length ring) 0

-- `ring.sort((a, b) => a.hash - b.hash)`, which is stable.
unfoldable pub insert : Entry → List Entry → List Entry
insert e [] = e ∷ []
insert e (x ∷ xs) = if ltb x.hash e.hash then x ∷ insert e xs else e ∷ x ∷ xs

unfoldable pub sort : List Entry → List Entry
sort [] = []
sort (e ∷ es) = insert e (sort es)

module _ (hash32 : String → ℕ) (show : ℕ → String) (vnodes_per_weight : ℕ) where
  -- The virtual nodes `i`, `i + 1`, ... of one backend.
  unfoldable pub vnodes : String → ℕ → ℕ → List Entry
  vnodes id i zero = []
  vnodes id i (suc n) =
      record { hash = hash32 (str_append id (str_append "#vnode-" (show i))); backend_id = id }
      ∷ vnodes id (i + 1) n

  -- The loop over the backends; `Math.max(1, weight || 1)`.
  unfoldable pub push_all : List Backend → List Entry
  push_all [] = []
  push_all (b ∷ bs) = vnodes b.id 0 (vnodes_per_weight * max 1 b.weight) ++ push_all bs

  unfoldable pub build_ring : List Backend → List Entry
  unfolding sort push_all
  build_ring bs = sort (push_all bs)

  -- `find(...) || healthyBackends[0]`.
  abbrev pub or_first : Option Backend → List Backend → Option Backend
  or_first (some b) bs = some b
  or_first none [] = none
  or_first none (b ∷ bs) = some b

  pick : Option Entry → List Backend → Option Backend
  pick none bs = or_first none bs
  pick (some e) bs = or_first (find e.backend_id bs) bs

  unfoldable pub select : String → List Backend → Option Backend
  unfolding pick
  select client_key bs =
      let ring = build_ring bs in
      if length bs == 0
      then none
      else if length ring == 0
      then or_first none bs
      else pick (get_elem? ring (find_ring_index ring (hash32 client_key))) bs
