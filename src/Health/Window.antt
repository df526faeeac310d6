-- ===== src/Health/Window.antt =====
-- The statistics of one backend after any history of checks.
use sentinel_adc.Base.{
  ℕ, zero, suc, ◌-◌, ◌*◌, ◌≤◌, ◌<◌, ◌≡◌, refl, ap, Bool, true, false, List, [], ◌∷◌, ◌++◌, arith,
  length, drop, length-append, length-drop, length-filter-le, if◌then◌else◌,
}
use sentinel_adc.Health.{
  Check, Stats, initial_stats, count_check, count_result, slide, round_div, history_limit,
}

-- The statistics after a history of checks, the latest first.
unfoldable pub count_all : List Check → Stats
count_all [] = initial_stats
count_all (c ∷ older) = count_check c.success c.latency c.timestamp (count_all older)

-- The same history, the oldest first.
abbrev pub in_order : List Check → List Check
in_order [] = []
in_order (c ∷ older) = in_order older ++ c ∷ []

-- The failures since the last success.
abbrev pub failing_run : List Check → ℕ
failing_run [] = 0
failing_run (c ∷ older) = if c.success then 0 else suc (failing_run older)

-- The successes since the last failure.
abbrev pub passing_run : List Check → ℕ
passing_run [] = 0
passing_run (c ∷ older) = if c.success then suc (passing_run older) else 0

abbrev pub successes : List Check → ℕ
successes [] = 0
successes (c ∷ older) = if c.success then suc (successes older) else successes older

-- The last `n` elements.
abbrev pub last {ℓ} : {A : Type ℓ} → ℕ → List A → List A
last n xs = drop (length xs - n) xs

pub drop-append {ℓ} :
    {A : Type ℓ} (n : ℕ) (xs ys : List A) → n ≤ length xs → drop n (xs ++ ys) ≡ drop n xs ++ ys
drop-append zero xs ys h = refl
drop-append (suc n) [] ys h = elim h [ ]
drop-append (suc n) (x ∷ xs) ys h = drop-append n xs ys (omega arith)

drop-drop {ℓ} : {A : Type ℓ} (n : ℕ) (xs : List A) → drop 1 (drop n xs) ≡ drop (suc n) xs
drop-drop zero [] = refl
drop-drop zero (x ∷ xs) = refl
drop-drop (suc n) [] = refl
drop-drop (suc n) (x ∷ xs) = drop-drop n xs

pub drop-index {ℓ} : {A : Type ℓ} (m n : ℕ) (xs : List A) → m ≡ n → drop m xs ≡ drop n xs
drop-index m n xs e = rw e

slide-last :
    (c : Check) (h : List Check) → slide c (last history_limit h) ≡ last history_limit (h ++ c ∷ [])
unfolding slide
slide-last c h = ground (
  arith,
  length-append (last history_limit h) (c ∷ []),
  length-append h (c ∷ []),
  length-drop (length h - 20) h,
  drop-append (length h - 20) h (c ∷ []),
  drop-drop (length h - 20) (h ++ c ∷ []),
  drop-index (length h - 20) (length (h ++ c ∷ []) - 20) (h ++ c ∷ []),
  drop-index (suc (length h - 20)) (length (h ++ c ∷ []) - 20) (h ++ c ∷ []),
)

checks-count_result : (b : Bool) (now : ℕ) (s : Stats) → (count_result b now s).checks ≡ s.checks
unfolding count_result
checks-count_result true now s = refl
checks-count_result false now s = refl

-- The window holds the last 20 checks of the history, in their order.
pub checks-count_all : (h : List Check) → (count_all h).checks ≡ last history_limit (in_order h)
unfolding count_all count_check initial_stats
checks-count_all [] = refl
checks-count_all (c ∷ older) =
    rw (checks-count_result c.success c.timestamp (count_all older), checks-count_all older)
      (slide-last c (in_order older))

-- A quotient that is at most `k` is rounded to at most `k`.
pub round_div-le : (a b k : ℕ) → 0 < b → a ≤ k * b → round_div a b ≤ k
unfolding round_div
round_div-le a b k p h = grind arith

successes-le : (h : List Check) → successes h ≤ length h
successes-le [] = omega arith
successes-le (c ∷ older) = ground (arith, successes-le older)

pub record IsTally (h : List Check) (s : Stats) : Type 0 where
  pub failures : s.consecutive_failures ≡ failing_run h
  pub passes : s.consecutive_successes ≡ passing_run h
  pub total : s.total_checks ≡ length h
  pub successful : s.successful_checks ≡ successes h
  pub window_bounded : length s.checks ≤ history_limit
  pub recent : s.recent_successes ≤ s.recent_checks
  pub percentage : s.uptime_percentage ≤ 10000

tally :
    (h : List Check)
    → let s = count_all h in
      (s.consecutive_failures ≡ failing_run h)
      × (s.consecutive_successes ≡ passing_run h)
      × (s.total_checks ≡ length h)
      × (s.successful_checks ≡ successes h)
unfolding count_all count_check count_result initial_stats
tally [] = (refl, refl, refl, refl)
tally (c ∷ older) = ground (arith, tally older)

recent-le : (h : List Check) → (count_all h).recent_successes ≤ (count_all h).recent_checks
unfolding count_all count_check initial_stats
recent-le [] = omega arith
recent-le (c ∷ older) = length-filter-le (λ c. c.success) _

uptime-count_check :
    (b : Bool) (latency now : ℕ) (s : Stats)
    → let s' = count_check b latency now s in
      s'.uptime_percentage ≡ round_div (s'.successful_checks * 10000) s'.total_checks
unfolding count_check
uptime-count_check b latency now s = refl

uptime-le : (h : List Check) → (count_all h).uptime_percentage ≤ 10000
unfolding count_all initial_stats
uptime-le [] = omega arith
uptime-le (c ∷ older) =
    let (_, _, total, successful) = tally (c ∷ older) in
    rw (uptime-count_check c.success c.latency c.timestamp (count_all older)) (
      round_div-le _ _ 10000 (omega (arith, total))
        (omega (arith, total, successful, successes-le (c ∷ older))))

-- The counters are those of the history: the runs since the last success and since the last
-- failure, and the totals; the window has at most 20 entries and the uptime is at most 100 percent.
pub count_all-IsTally : (h : List Check) → IsTally h (count_all h)
count_all-IsTally h = record {
  failures = (tally h).0;
  passes = (tally h).1;
  total = (tally h).2;
  successful = (tally h).3;
  window_bounded =
      omega (
        arith,
        ap length (checks-count_all h),
        length-drop (length (in_order h) - 20) (in_order h),
      );
  recent = recent-le h;
  percentage = uptime-le h;
}
