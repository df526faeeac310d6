-- ===== src/Routing/Selection.antt =====
-- What the engine chooses.
use sentinel_adc.Base.{
  ℕ, ◌%◌, ◌≤◌, max, get_elem?, ◌<◌, ◌≡◌, refl, subst, str_eq, String, Bool, true, false, not,
  Option, none, some, List, [], ◌∷◌, arith, length, filter, In, here, there, All, ◌⊎◌, inl, inr,
  Bool-cases, ◌==◌, if◌then◌else◌,
}
use sentinel_adc.Pool.{Backend, find}
use sentinel_adc.Routing.{
  Algorithm, round_robin, least_connections, weighted_round_robin, ip_hash, consistent_hash, Engine,
  Request, choose, with_weighted, select_backend, get_healthy_backends, prefer_fresh, has,
}
use sentinel_adc.Strategy.RoundRobin.{RoundRobin}
use sentinel_adc.Strategy.RoundRobin
use sentinel_adc.Strategy.IpHash.{simple_hash}
use sentinel_adc.Strategy.ConsistentHash.{Entry, build_ring}
use sentinel_adc.Strategy.ConsistentHash.Search.{clockwise}
use sentinel_adc.Strategy.LeastConnections
use sentinel_adc.Strategy.LeastConnections.{IsBest, IsBest?}
use sentinel_adc.Strategy.Weighted
use sentinel_adc.Strategy.Weighted.{Weighted}
use sentinel_adc.Strategy.Weighted.Ends.{Chosen, select-Chosen}
use sentinel_adc.Strategy.IpHash
use sentinel_adc.Strategy.ConsistentHash.Stable.{select-clockwise}

find-In : (i : String) (bs : List Backend) (b : Backend) → find i bs ≡ some b → In b bs
unfolding find
find-In i [] b e = cc
find-In i (c ∷ bs) b e = elim (Bool-cases (str_eq c.id i)) [
  | inl hit ↦ let same : c ≡ b = ground arith in subst (λ x. In x (c ∷ bs)) same here
  | inr miss ↦ there (find-In i bs b (ground arith))
]

-- `prefer_fresh` keeps candidates of the list, and failed ones only if all have failed.
In-filter_if :
    (p : Backend → Bool) (c : Backend) (bs : List Backend) (t : Bool)
    → p c ≡ t
    → ((b : Backend) → In b (filter p bs) → In b bs × (p b ≡ true))
    → (b : Backend) → In b (if t then c ∷ filter p bs else filter p bs)
    → In b (c ∷ bs) × (p b ≡ true)
In-filter_if p c bs true e rest b here = (here, e)
In-filter_if p c bs true e rest b (there i) = let (j, q) = rest b i in (there j, q)
In-filter_if p c bs false e rest b i = let (j, q) = rest b i in (there j, q)

In-filter :
    (p : Backend → Bool) (bs : List Backend) (b : Backend)
    → In b (filter p bs)
    → In b bs × (p b ≡ true)
unfolding filter
In-filter p [] b i = elim i [ ]
In-filter p (c ∷ bs) b i = In-filter_if p c bs (p c) refl (In-filter p bs) b i

filter-empty :
    (p : Backend → Bool) (bs : List Backend) → length (filter p bs) ≡ 0 → All (λ b. p b ≡ false) bs
unfolding filter
filter-empty p [] h = tt
filter-empty p (b ∷ bs) h = ground (arith, filter-empty p bs)

Preferred : List String → List Backend → Backend → Type 0
Preferred failed healthy b =
    In b healthy × ((has b.id failed ≡ false) ⊎ All (λ c. has c.id failed ≡ true) healthy)

All-flip :
    (f : Backend → Bool) (bs : List Backend)
    → All (λ b. not (f b) ≡ false) bs
    → All (λ b. f b ≡ true) bs
All-flip f [] h = tt
All-flip f (b ∷ bs) (h, t) = (ground arith, All-flip f bs t)

prefer_fresh-In :
    (failed : List String) (healthy : List Backend) (b : Backend)
    → In b (prefer_fresh failed healthy)
    → Preferred failed healthy b
unfolding prefer_fresh Preferred
prefer_fresh-In failed healthy b i =
    elim (Bool-cases (length (filter (λ c. not (has c.id failed)) healthy) == 0)) [
      | inl none_fresh ↦
          let e : prefer_fresh failed healthy ≡ healthy = rw none_fresh in
          (
            subst (λ l. In b l) e i,
            inr (
                All-flip (λ c. has c.id failed) healthy
                  (filter-empty (λ c. not (has c.id failed)) healthy (ground arith))),
          )
      | inr some_fresh ↦
          let e : prefer_fresh failed healthy ≡ filter (λ c. not (has c.id failed)) healthy =
            rw some_fresh in
          let (j, q) = In-filter (λ c. not (has c.id failed)) healthy b (subst (λ l. In b l) e i) in
          (j, inl (ground arith))
    ]

prefer_fresh-empty :
    (failed : List String) (healthy : List Backend)
    → (length (prefer_fresh failed healthy) == 0) ≡ (length healthy == 0)
unfolding prefer_fresh filter
prefer_fresh-empty failed [] = refl
prefer_fresh-empty failed (b ∷ bs) = ground arith

module _ (score : Backend → ℕ) (scaled : ℕ → ℕ → ℕ) (hash32 : String → ℕ) (show : ℕ → String)
    (vnodes_per_weight : ℕ) where
  -- What each algorithm promises of its choice among the candidates: round robin the one at the position
  -- that its counter has reached, least connections one with the fewest connections and of these the
  -- best score, weighted round robin the one that its state chooses, of at least the current weight, IP
  -- hash the one at the hash of the address, consistent hash the owner of the entry clockwise of the key.
  abbrev pub Promised :
      Algorithm → Request → RoundRobin → Weighted → List Backend → Backend → Type 0
  Promised round_robin req cyclic weighted bs b = get_elem? bs (cyclic.index % length bs) ≡ some b
  Promised least_connections req cyclic weighted bs b = IsBest score bs b
  Promised weighted_round_robin req cyclic weighted bs b =
      (w : Weighted) × (Weighted.select scaled score bs weighted ≡ some (b, w))
      × (w.current_weight ≤ max 1 (scaled b.weight (score b)))
  Promised ip_hash req cyclic weighted bs b =
      get_elem? bs (simple_hash req.client_ip % length bs) ≡ some b
  Promised consistent_hash req cyclic weighted bs b =
      (x : Entry) × (clockwise (hash32 req.client_key) (build_ring hash32 show vnodes_per_weight bs)
        ≡ some x)
      × (find x.backend_id bs ≡ some b)

  -- Every algorithm keeps its promise on a list that is not empty, with a backend of the list.
  choose-Promised :
      (a : Algorithm) (req : Request) (bs : List Backend) (e : Engine)
      → 0 < vnodes_per_weight
      → 0 < length bs
      → (b : Backend) × ((choose score scaled hash32 show vnodes_per_weight a req bs e).0 ≡ some b)
        × In b bs
        × Promised a req e.cyclic e.weighted bs b
  unfolding choose RoundRobin.select IpHash.select
  choose-Promised round_robin req bs e v h =
      let (b, chosen, i) = RoundRobin.select-In bs e.cyclic h in (b, chosen, i, chosen)
  choose-Promised least_connections req bs e v h =
      best (LeastConnections.select score bs) (LeastConnections.select-IsBest score bs h)
    where
      best :
          (o : Option Backend)
          → IsBest? score bs o
          → (b : Backend) × (o ≡ some b) × In b bs × IsBest score bs b
      best none i = absurd i
      best (some b) i = (b, refl, i.member, i)
  choose-Promised weighted_round_robin req bs e v h =
      heaviest (Weighted.select scaled score bs e.weighted)
        (select-Chosen scaled score bs e.weighted h)
    where
      heaviest :
          (o : Option (Backend × Weighted))
          → Chosen scaled score bs o
          → (b : Backend) × ((with_weighted score scaled hash32 show vnodes_per_weight e o).0
              ≡ some b)
            × In b bs
            × ((w : Weighted) × (o ≡ some (b, w))
                × (w.current_weight ≤ max 1 (scaled b.weight (score b))))
      heaviest none i = absurd i
      heaviest (some (b, w)) i = (b, refl, i.0, (w, refl, i.1))
  choose-Promised ip_hash req bs e v h =
      let (b, chosen, i) = IpHash.select-In req.client_ip bs h in (b, chosen, i, chosen)
  choose-Promised consistent_hash req bs e v h =
      let (x, b, met, found, sel) =
        select-clockwise hash32 show vnodes_per_weight req.client_key bs v h in
      (b, sel, find-In x.backend_id bs b found, (x, met, found))

  -- With at least one virtual node per unit of weight: the engine finds no backend exactly when no
  -- backend is healthy and lets the request through. Otherwise it chooses one of those, one that has
  -- failed the request before only if all of them have, and the one that the current algorithm promises
  -- among the candidates: by its counter, the connections and scores, the weights, or the hash.
  pub select_backend_lem :
      (req : Request) (now at : ℕ) (e : Engine)
      → 0 < vnodes_per_weight
      → let healthy = (get_healthy_backends now at e.circuit).0 in
        let answer = (select_backend score scaled hash32 show vnodes_per_weight req now at e).0 in
        ((length healthy ≡ 0) × (answer ≡ none))
        ⊎ ((b : Backend) × (answer ≡ some (b, e.algorithm))
            × In b healthy
            × ((has b.id req.failed_backends ≡ false)
                ⊎ All (λ c. has c.id req.failed_backends ≡ true) healthy)
            × Promised e.algorithm req e.cyclic e.weighted
                (prefer_fresh req.failed_backends healthy)
                b)
  unfolding select_backend Preferred
  select_backend_lem req now at e v =
      let healthy = (get_healthy_backends now at e.circuit).0 in
      let m = (get_healthy_backends now at e.circuit).1 in
      let candidates = prefer_fresh req.failed_backends healthy in
      let same = prefer_fresh-empty req.failed_backends healthy in
      elim (Bool-cases (length candidates == 0)) [
        | inl out ↦ inl (ground arith, rw out)
        | inr left ↦
            let (b, chosen, i, promised) =
              choose-Promised e.algorithm req candidates (record e { circuit = m }) v
                (ground arith) in
            let (j, pref) = prefer_fresh-In req.failed_backends healthy b i in
            inr (b, rw (left, chosen), j, pref, promised)
      ]
