-- ===== src/Strategy/LeastConnections.antt =====
-- Least connections (src/routing/strategies/leastConnections.js). `score` is the score that the
-- metrics store has for a backend, 100 where it has none.
use mathlib.Core.List.{append-nil, append_assoc}
use sentinel_adc.Base.{
  ℕ, ◌≤◌, ◌<◌, ◌≡◌, refl, ap, sym, subst, ◌∙◌, Bool, true, false, Option, none, some, List, [], ◌∷◌,
  ◌++◌, arith, In, here, there, All, ltb, ◌==◌, if◌then◌else◌, Bool-cases, inl, inr, ◌⊎◌, length,
}
use sentinel_adc.Pool.{Backend}

-- `minConnections`, with `none` for `Infinity`, and `selectedBackends`.
pub record Scan : Type 0 where
  pub min_connections : Option ℕ
  pub selected : List Backend

abbrev below : ℕ → Option ℕ → Bool
below n none = true
below n (some m) = ltb n m

abbrev equals : ℕ → Option ℕ → Bool
equals n none = false
equals n (some m) = n == m

-- The first loop.
scan : List Backend → Scan → Scan
scan [] s = s
scan (b ∷ bs) s = scan bs (
    if below b.active_connections s.min_connections
    then record { min_connections = some b.active_connections; selected = b ∷ [] }
    else if equals b.active_connections s.min_connections
    then record s { selected = s.selected ++ b ∷ [] }
    else s)

-- The second loop; `best` is `bestScore`, with `none` for -1.
tie_break : (Backend → ℕ) → List Backend → Option ℕ → Option Backend → Option Backend
tie_break score [] best chosen = chosen
tie_break score (b ∷ bs) none chosen = tie_break score bs (some (score b)) (some b)
tie_break score (b ∷ bs) (some best) chosen =
    tie_break score bs (some (if ltb best (score b) then score b else best))
      (if ltb best (score b) then some b else chosen)

abbrev first : List Backend → Option Backend
first [] = none
first (b ∷ bs) = some b

unfoldable pub select : (Backend → ℕ) → List Backend → Option Backend
unfolding scan tie_break
select score bs =
    let s = scan bs (record { min_connections = none; selected = [] }) in
    tie_break score s.selected none (first s.selected)

-- The choice: among the backends with the fewest connections one with the best score.
pub record IsBest (score : Backend → ℕ) (bs : List Backend) (b : Backend) : Type 0 where
  pub member : In b bs
  pub least : All (λ c. b.active_connections ≤ c.active_connections) bs
  pub best_of_tied :
      All (λ c. (b.active_connections < c.active_connections) ⊎ (score c ≤ score b)) bs

-- The least count of connections, `m` included, and the backends that have it.
abbrev lowest : ℕ → List Backend → ℕ
lowest m [] = m
lowest m (b ∷ bs) = lowest (if ltb b.active_connections m then b.active_connections else m) bs

abbrev with_count : ℕ → List Backend → List Backend
with_count m [] = []
with_count m (b ∷ bs) =
    let rest = with_count m bs in if b.active_connections == m then b ∷ rest else rest

lowest-le :
    (m k : ℕ) (bs : List Backend)
    → k ≡ lowest m bs
    → (k ≤ m) × All (λ b. k ≤ b.active_connections) bs
lowest-le m k [] e = (omega arith, tt)
lowest-le m k (b ∷ bs) e =
    let (low, rest) =
      lowest-le (if ltb b.active_connections m then b.active_connections else m) k bs e in
    (ground arith, (ground arith, rest))

singleton_case :
    (b : Backend) (k : ℕ) (bs : List Backend)
    → (if k == b.active_connections then b ∷ with_count k bs else with_count k bs)
      ≡ with_count k (b ∷ bs)
singleton_case b k bs = ground arith

-- What the scan holds when the least count is `k` and it started with `m`.
abbrev expected : ℕ → List Backend → List Backend → ℕ → List Backend
expected m sel bs k = if k == m then sel ++ with_count k bs else with_count k bs

fewer_case :
    (b : Backend) (m k : ℕ) (sel bs : List Backend)
    → (k == m) ≡ false
    → expected b.active_connections (b ∷ []) bs k ≡ expected m sel (b ∷ bs) k
fewer_case b m k sel bs above = rw above (singleton_case b k bs)

tied_case :
    (b : Backend) (m k : ℕ) (sel bs : List Backend)
    → b.active_connections ≡ m
    → (if k == m then (sel ++ b ∷ []) ++ with_count k bs else with_count k bs)
      ≡ (if k == m then sel ++ with_count k (b ∷ bs) else with_count k (b ∷ bs))
tied_case b m k sel bs e = elim (Bool-cases (k == m)) [
  | inl least ↦
      let hit : (b.active_connections == k) ≡ true = ground arith in
      rw (least, hit) (append_assoc sel (b ∷ []) (with_count k bs))
  | inr less ↦ let miss : (b.active_connections == k) ≡ false = ground arith in rw (less, miss)
]

scan_lem :
    (bs : List Backend) (m : ℕ) (sel : List Backend)
    → (scan bs (record { min_connections = some m; selected = sel })).selected ≡ (
        if lowest m bs == m
        then sel ++ with_count (lowest m bs) bs
        else with_count (lowest m bs) bs)
unfolding scan
scan_lem [] m sel = ground (arith, append-nil sel)
scan_lem (b ∷ bs) m sel = elim (Bool-cases (ltb b.active_connections m)) [
  | inl fewer ↦
      let low = (lowest-le b.active_connections _ bs refl).0 in
      let above : (lowest b.active_connections bs == m) ≡ false = ground arith in
      let step : lowest m (b ∷ bs) ≡ lowest b.active_connections bs = rw fewer in
      ap (λ s. (scan bs s).selected) (rw fewer)
      ∙ scan_lem bs b.active_connections (b ∷ [])
      ∙ fewer_case b m (lowest b.active_connections bs) sel bs above
      ∙ ap (expected m sel (b ∷ bs)) (sym step)
  | inr more ↦
      let step : lowest m (b ∷ bs) ≡ lowest m bs = rw more in
      elim (Bool-cases (b.active_connections == m)) [
        | inl same ↦
            ap (λ s. (scan bs s).selected) (rw (more, same))
            ∙ scan_lem bs m (sel ++ b ∷ [])
            ∙ tied_case b m (lowest m bs) sel bs (ground arith)
            ∙ ap (expected m sel (b ∷ bs)) (sym step)
        | inr other ↦
            let low = (lowest-le m _ bs refl).0 in
            let above : (b.active_connections == lowest m bs) ≡ false = ground arith in
            ap (λ s. (scan bs s).selected) (rw (more, other))
            ∙ scan_lem bs m sel
            ∙ (rw above)
            ∙ ap (expected m sel (b ∷ bs)) (sym step)
      ]
]

In-if :
    (m : ℕ) (b : Backend) (bs : List Backend) (t : Bool)
    → (b.active_connections == m) ≡ t
    → ((c : Backend) → In c (with_count m bs) → In c bs × (c.active_connections ≡ m))
    → {c : Backend} → In c (if t then b ∷ with_count m bs else with_count m bs)
    → In c (b ∷ bs) × (c.active_connections ≡ m)
In-if m b bs true e rest here = (here, ground arith)
In-if m b bs true e rest (there j) = let (k, q) = rest _ j in (there k, q)
In-if m b bs false e rest j = let (k, q) = rest _ j in (there k, q)

In-with_count :
    (m : ℕ) (bs : List Backend) (b : Backend)
    → In b (with_count m bs)
    → In b bs × (b.active_connections ≡ m)
In-with_count m [] c i = elim i [ ]
In-with_count m (b ∷ bs) c i = In-if m b bs (b.active_connections == m) refl (In-with_count m bs) i

All-with_count :
    (score : Backend → ℕ) (m s : ℕ) (bs : List Backend)
    → All (λ b. m ≤ b.active_connections) bs
    → All (λ c. score c ≤ s) (with_count m bs)
    → All (λ c. (m < c.active_connections) ⊎ (score c ≤ s)) bs
All-with_count score m s [] l a = tt
All-with_count score m s (b ∷ bs) l a = ground (arith, All-with_count score m s bs l.1)

-- The second loop keeps a backend of the list with the best score.
abbrev Best : (Backend → ℕ) → List Backend → Option Backend → Type 0
Best score bs none = ⊥
Best score bs (some b) = In b bs × All (λ c. score c ≤ score b) bs

tie_break-Best :
    (score : Backend → ℕ) (bs : List Backend) (c : Backend)
    → Best score (c ∷ bs) (tie_break score bs (some (score c)) (some c))
unfolding tie_break
tie_break-Best score [] c = (here, (omega arith, tt))
tie_break-Best score (b ∷ bs) c = elim (Bool-cases (ltb (score c) (score b))) [
  | inl better ↦ rw (better, tie_break) (later _ (ground arith) (tie_break-Best score bs b))
  | inr worse ↦ rw (worse, tie_break) (skip _ (ground arith) (tie_break-Best score bs c))
]
  where
    later :
        (o : Option Backend) → score c ≤ score b → Best score (b ∷ bs) o → Best score (c ∷ b ∷ bs) o
    later none le h = h
    later (some d) le (i, a) = (there i, (omega arith, a))

    skip :
        (o : Option Backend) → score b ≤ score c → Best score (c ∷ bs) o → Best score (c ∷ b ∷ bs) o
    skip none le h = h
    skip (some d) le (here, a) = (here, (a.0, (omega arith, a.1)))
    skip (some d) le (there i, a) = (there (there i), (a.0, (omega arith, a.1)))

-- After the first backend the scan holds the backends with the least count.
scan_first :
    (b : Backend) (bs : List Backend)
    → (scan (b ∷ bs) (record { min_connections = none; selected = [] })).selected
      ≡ with_count (lowest b.active_connections bs) (b ∷ bs)
unfolding scan
scan_first b bs =
    scan_lem bs b.active_connections (b ∷ []) ∙ singleton_case b (lowest b.active_connections bs) bs

-- The least count is the one that the search started from, or some backend has it.
attained :
    (m k : ℕ) (bs : List Backend) → k ≡ lowest m bs → (k ≡ m) ⊎ (0 < length (with_count k bs))
attained m k [] e = inl e
attained m k (b ∷ bs) e =
    ground (arith, attained (if ltb b.active_connections m then b.active_connections else m) k bs e)

nonempty-with_count :
    (b : Backend) (bs : List Backend)
    → 0 < length (with_count (lowest b.active_connections bs) (b ∷ bs))
nonempty-with_count b bs = ground (arith, attained b.active_connections _ bs refl)

abbrev pub IsBest? : (Backend → ℕ) → List Backend → Option Backend → Type 0
IsBest? score bs none = ⊥
IsBest? score bs (some b) = IsBest score bs b

finish :
    (score : Backend → ℕ) (bs : List Backend) (k : ℕ) (o : Option Backend)
    → All (λ b. k ≤ b.active_connections) bs
    → Best score (with_count k bs) o
    → IsBest? score bs o
finish score bs k none l h = h
finish score bs k (some b) l (i, a) =
    let (j, e) = In-with_count k bs b i in
    record {
      member = j;
      least = subst (λ n. All (λ c. n ≤ c.active_connections) bs) (sym e) l;
      best_of_tied =
          subst (λ n. All (λ c. (n < c.active_connections) ⊎ (score c ≤ score b)) bs) (sym e)
            (All-with_count score k (score b) bs l a);
    }

tie_break-first :
    (score : Backend → ℕ) (bs : List Backend)
    → 0 < length bs
    → Best score bs (tie_break score bs none (first bs))
unfolding tie_break
tie_break-first score [] h = elim h [ ]
tie_break-first score (b ∷ bs) h = tie_break-Best score bs b

-- On a list that is not empty the strategy chooses a backend with the fewest connections, and among
-- those one with the best score.
pub select-IsBest :
    (score : Backend → ℕ) (bs : List Backend) → 0 < length bs → IsBest? score bs (select score bs)
unfolding select
select-IsBest score [] h = elim h [ ]
select-IsBest score (b ∷ bs) h =
    let k = lowest b.active_connections bs in
    let (low, rest) = lowest-le b.active_connections k bs refl in
    finish score (b ∷ bs) k _ (low, rest)
      (rw (scan_first b bs)
        (tie_break-first score (with_count k (b ∷ bs)) (nonempty-with_count b bs)))
