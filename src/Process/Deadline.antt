-- ===== src/Process/Deadline.antt =====
-- How long a shutdown takes (src/index.js).
use sentinel_adc.Base.{
  ℕ, ◌+◌, ◌≡◌, ◌≤◌, refl, Bool, true, some, List, [], ◌∷◌, ◌++◌, arith, In, here, there, leb, inl,
  inr, Bool-cases, leb→le,
}
use sentinel_adc.Http.{Tls}
use sentinel_adc.Process.{
  Process, Event, ticks, listens, connects, ends, https_connects, https_ends, signals, closes,
  cache_closes, db_closes, times_out, crashes, may, handle, none_before, some_due, happens, Reach,
  now, later, is_running,
}

In-append_left : (d : ℕ) (xs ys : List ℕ) → In d xs → In d (xs ++ ys)
In-append_left d (x ∷ xs) ys here = here
In-append_left d (x ∷ xs) ys (there i) = there (In-append_left d xs ys i)
In-append_left d [] ys i = elim i [ ]

In-append_last : (d : ℕ) (xs : List ℕ) → In d (xs ++ d ∷ [])
In-append_last d [] = here
In-append_last d (x ∷ xs) = there (In-append_last d xs)

none_before-In : (t d : ℕ) (ds : List ℕ) → none_before t ds ≡ true → In d ds → t ≤ d
unfolding none_before
none_before-In t d [] h i = elim i [ ]
none_before-In t d (x ∷ ds) h here = ground arith
none_before-In t d (x ∷ ds) h (there i) = none_before-In t d ds (ground arith) i

none_before-le : (t s : ℕ) (ds : List ℕ) → none_before s ds ≡ true → t ≤ s → none_before t ds ≡ true
unfolding none_before
none_before-le t s [] h le = refl
none_before-le t s (x ∷ ds) h le = ground (arith, none_before-le t s ds)

some_due-In : (t d : ℕ) (ds : List ℕ) → In d ds → d ≤ t → some_due t ds ≡ true
unfolding some_due
some_due-In t d [] i le = elim i [ ]
some_due-In t d (x ∷ ds) here le = ground arith
some_due-In t d (x ∷ ds) (there i) le = ground (arith, some_due-In t d ds i le)

-- The first timer that will be due.
earliest : (x : ℕ) (xs : List ℕ) → (m : ℕ) × In m (x ∷ xs) × (none_before m (x ∷ xs) ≡ true)
unfolding none_before
earliest x [] = (x, here, ground arith)
earliest x (y ∷ ys) =
    let (m, i, h) = earliest y ys in
    elim (Bool-cases (leb x m)) [
      | inl le ↦ let rest = none_before-le x m (y ∷ ys) h (leb→le x m le) in (x, here, ground arith)
      | inr gt ↦ (m, there i, ground arith)
    ]

nonempty-In : (d : ℕ) (ds : List ℕ) → In d ds → (x : ℕ) × (xs : List ℕ) × (ds ≡ x ∷ xs)
nonempty-In d [] i = elim i [ ]
nonempty-In d (x ∷ xs) i = (x, xs, refl)

module _ {S D : Type 0} (tls : Tls) (readable : Bool) where
  -- A timer that has been set stays set, and the clock does not pass it.
  abbrev Pending : ℕ → Process S D → Type 0
  Pending d p = In d p.deadlines × (p.clock ≤ d)

  Pending-handle :
      (e : Event) (p : Process S D) (d : ℕ)
      → may tls readable e p ≡ true
      → Pending d p
      → Pending d (handle tls readable e p)
  unfolding may handle
  Pending-handle (ticks t) p d m (i, le) = (i, none_before-In t d p.deadlines (ground arith) i)
  Pending-handle signals p d m (i, le) = (In-append_left d p.deadlines _ i, le)
  Pending-handle (listens monitor worker) p d m h = h
  Pending-handle connects p d m h = h
  Pending-handle ends p d m h = h
  Pending-handle https_connects p d m h = h
  Pending-handle https_ends p d m h = h
  Pending-handle (closes i) p d m h = h
  Pending-handle (cache_closes i quits) p d m h = h
  Pending-handle (db_closes i done) p d m h = h
  Pending-handle times_out p d m h = h
  Pending-handle crashes p d m h = h

  Pending-Reach : {p q : Process S D} (d : ℕ) → Reach tls readable p q → Pending d p → Pending d q
  Pending-Reach d now h = h
  Pending-Reach d (later r (happens e run m)) h = Pending-handle e _ d m (Pending-Reach d r h)

  -- The timer that is due next ends a process that has not ended before.
  Reach-forced :
      (p : Process S D) (x : ℕ) (xs : List ℕ)
      → p.deadlines ≡ x ∷ xs
      → is_running p.exit ≡ true
      → (q : Process S D) × Reach tls readable p q × (q.exit ≡ some 1)
  unfolding handle may
  Reach-forced p x xs e run =
      let (m, i, h) = earliest x xs in
      elim (Bool-cases (leb m p.clock)) [
        | inl due ↦ (
          _,
          later now (
              happens times_out run
                (rw e (some_due-In p.clock m (x ∷ xs) i (leb→le m p.clock due)))),
          refl,
        )
        | inr ahead ↦
            let waits : may tls readable (ticks m) p ≡ true = rw e (ground arith) in
            (
              _,
              later (later now (happens (ticks m) run waits))
                  (happens times_out run (rw e (some_due-In m m (x ∷ xs) i (omega arith)))),
              refl,
            )
      ]

  -- A process that has got a signal and still runs has done so for ten seconds at most, whatever has
  -- happened since, and it can be ended by a timer with the code 1, whatever its requests and clients do.
  pub shutdown_ends :
      (p q : Process S D)
      → Reach tls readable (handle tls readable signals p) q
      → is_running q.exit ≡ true
      → (q.clock ≤ p.clock + 10000)
        × ((r : Process S D) × Reach tls readable q r × (r.exit ≡ some 1))
  unfolding handle
  shutdown_ends p q r run =
      let deadline = p.clock + 10000 in
      let (i, le) = Pending-Reach deadline r (In-append_last deadline p.deadlines, omega arith) in
      let (x, xs, e) = nonempty-In deadline q.deadlines i in (le, Reach-forced q x xs e run)
