-- ===== src/Analytics/Groups.antt =====
-- What the groups of a backend count.
use sentinel_adc.Base.{
  ℕ, ◌+◌, ◌≡◌, refl, subst, String, Bool, false, Option, none, some, List, [], ◌∷◌, Dict, lookup,
  lookup-insert, IsMap, insert-IsMap, In-lookup, In, here, there, str_eq, str_eq_iff, filter,
  length, leb, map, if◌then◌else◌, Bool-cases, inl, inr, arith,
}
use sentinel_adc.Health.{round_div}
use sentinel_adc.Analytics.{
  LogRecord, Group, group_logs, grow, add_to, group_or, hits, report, aggregate_backends,
  BackendReport,
}
use sentinel_adc.Analytics.Summing.{sum_of, number_of}

abbrev pub is_id : String → Option String → Bool
is_id id none = false
is_id id (some b) = str_eq b id

-- The records of the requests that this backend has answered.
abbrev pub of_backend : String → LogRecord → Bool
of_backend id l = is_id id l.backend_id

abbrev pub fails : LogRecord → Bool
fails l = leb 400 l.status_code

-- From one group, which may be missing, to the other the counters grow by those of the records.
abbrev pub Grows : Option Group → Option Group → List LogRecord → Type 0
Grows o o' ls =
    ((group_or none o').request_count ≡ (group_or none o).request_count + length ls)
    × ((group_or none o').total_latency
        ≡ (group_or none o).total_latency + sum_of (λ l. l.latency) ls)
    × ((group_or none o').error_count ≡ (group_or none o).error_count + number_of fails ls)
    × ((group_or none o').cache_hit_count ≡ (group_or none o).cache_hit_count + number_of hits ls)

grow-Grows :
    (l : LogRecord) (o : Option Group) (url : Option String) (o' : Option Group)
    (ls : List LogRecord)
    → Grows (some (grow l (group_or url o))) o' ls
    → Grows o o' (l ∷ ls)
unfolding grow
grow-Grows l none url o' ls h = ground arith
grow-Grows l (some g) url o' ls h = ground arith

lookup-add_to :
    (id : String) (b : Option String) (l : LogRecord) (gs : Dict Group)
    → lookup id (add_to b l gs)
      ≡ (if is_id id b then some (grow l (group_or l.backend_url (lookup id gs))) else lookup id gs)
unfolding add_to
lookup-add_to id none l gs = refl
lookup-add_to id (some b) l gs = elim (Bool-cases (str_eq b id)) [
  | inl same ↦
      let p : b ≡ id = (str_eq_iff b id).0 same in
      rw (lookup-insert b id (grow l (group_or l.backend_url (lookup b gs))) gs, same, p) refl
  | inr other ↦
      rw (lookup-insert b id (grow l (group_or l.backend_url (lookup b gs))) gs, other) refl
]

group_logs-Grows :
    (id : String) (gs : Dict Group) (ls : List LogRecord)
    → Grows (lookup id gs) (lookup id (group_logs gs ls)) (filter (of_backend id) ls)
unfolding group_logs filter
group_logs-Grows id gs [] = ground arith
group_logs-Grows id gs (l ∷ ls) =
    let ih = group_logs-Grows id (add_to l.backend_id l gs) ls in
    let e = lookup-add_to id l.backend_id l gs in
    elim (Bool-cases (is_id id l.backend_id)) [
      | inl mine ↦ rw mine (
          grow-Grows l (lookup id gs) l.backend_url
            (lookup id (group_logs (add_to l.backend_id l gs) ls)) _ (rw (e, mine) at ih))
      | inr other ↦ rw other (rw (e, other) at ih)
    ]

add_to-IsMap :
    (b : Option String) (l : LogRecord) (gs : Dict Group) → IsMap gs → IsMap (add_to b l gs)
unfolding add_to
add_to-IsMap none l gs h = h
add_to-IsMap (some id) l gs h = insert-IsMap id _ gs h

group_logs-IsMap : (gs : Dict Group) (ls : List LogRecord) → IsMap gs → IsMap (group_logs gs ls)
unfolding group_logs
group_logs-IsMap gs [] h = h
group_logs-IsMap gs (l ∷ ls) h =
    group_logs-IsMap (add_to l.backend_id l gs) ls (add_to-IsMap l.backend_id l gs h)

In-map :
    {A B : Type 0} (f : A → B) (b : B) (xs : List A)
    → In b (map f xs)
    → (a : A) × In a xs × (f a ≡ b)
In-map f b [] h = elim h [ ]
In-map f b (x ∷ xs) here = (x, here, refl)
In-map f b (x ∷ xs) (there h) = let (a, k, e) = In-map f b xs h in (a, there k, e)

report-Grows :
    (id : String) (g : Group) (ls : List LogRecord)
    → Grows none (some g) ls
    → ((report (id, g)).request_count ≡ length ls)
      × ((report (id, g)).average_latency ≡ round_div (sum_of (λ l. l.latency) ls) (length ls))
      × ((report (id, g)).error_count ≡ number_of fails ls)
      × ((report (id, g)).cache_hit_count ≡ number_of hits ls)
unfolding report
report-Grows id g ls (count, latency, errors, hit) =
    let count' : g.request_count ≡ length ls = omega (arith, count) in
    let latency' : g.total_latency ≡ sum_of (λ l. l.latency) ls = omega (arith, latency) in
    (count', rw (count', latency') refl, omega (arith, errors), omega (arith, hit))

-- The report counts exactly these records: their number, their rounded average latency, and how many of
-- them fail and are hits.
abbrev pub IsReport : List LogRecord → BackendReport → Type 0
IsReport ls r =
    (r.request_count ≡ length ls)
    × (r.average_latency ≡ round_div (sum_of (λ l. l.latency) ls) (length ls))
    × (r.error_count ≡ number_of fails ls)
    × (r.cache_hit_count ≡ number_of hits ls)

-- Every report of a backend counts exactly the records of its own requests since the given time: their
-- number, their rounded average latency, and how many fail and are hits.
pub aggregate_backends-IsReport :
    (since : ℕ) (logs : List LogRecord) (r : BackendReport)
    → In r (aggregate_backends since logs)
    → IsReport (filter (of_backend r.backend_id) (filter (λ l. leb since l.timestamp) logs)) r
unfolding aggregate_backends lookup report
aggregate_backends-IsReport since logs r h =
    let recent = filter (λ l. leb since l.timestamp) logs in
    let ((id, g), member, e) = In-map report r (group_logs [] recent) h in
    let found = In-lookup id g (group_logs [] recent) (group_logs-IsMap [] recent tt) member in
    let grows =
      subst (λ o. Grows none o (filter (of_backend id) recent)) found
        (group_logs-Grows id [] recent) in
    subst (λ q. IsReport (filter (of_backend q.backend_id) recent) q) e
      (report-Grows id g (filter (of_backend id) recent) grows)
