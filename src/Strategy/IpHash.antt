-- ===== src/Strategy/IpHash.antt =====
-- IP hash (src/routing/strategies/ipHash.js) with `simpleHash` (src/utils/helpers.js). A text is the
-- list of its UTF-16 code units. A 32-bit signed integer is kept as its remainder modulo 2 ^ 32, and
-- `magnitude` is the `Math.abs` of the signed value.
use native.Mathlib.Nat.{mod-lt}
use sentinel_adc.Base.{
  ℕ, ◌+◌, ◌-◌, ◌*◌, ◌%◌, ◌^◌, ◌≤◌, ◌<◌, ◌≡◌, ap, Option, some, List, [], ◌∷◌, arith, length,
  get_elem?, get_elem?-total, get_elem?-In, In, ltb, if◌then◌else◌,
}

-- `hash << 5`, minus `hash`, plus the character, and back to 32 bits.
unfoldable pub hash_step : ℕ → ℕ → ℕ
hash_step u c = (u * 32 % 2 ^ 32 + (2 ^ 32 - u) + c) % 2 ^ 32

hash_loop : ℕ → List ℕ → ℕ
hash_loop u [] = u
hash_loop u (c ∷ cs) = hash_loop (hash_step u c) cs

unfoldable pub magnitude : ℕ → ℕ
magnitude u = if ltb u (2 ^ 31) then u else 2 ^ 32 - u

unfoldable pub simple_hash : List ℕ → ℕ
unfolding hash_loop magnitude hash_step
simple_hash str = magnitude (hash_loop 0 str)

unfoldable pub select {ℓ} : {A : Type ℓ} → List ℕ → List A → Option A
unfolding simple_hash
select client_ip bs = get_elem? bs (simple_hash client_ip % length bs)

-- The polynomial in 31 whose remainder the loop keeps, by Horner's rule.
abbrev pub horner : ℕ → List ℕ → ℕ
horner a [] = a
horner a (c ∷ cs) = horner (31 * a + c) cs

hash_step_lem : (u a c : ℕ) → u < 2 ^ 32 → u ≡ a % 2 ^ 32 → hash_step u c ≡ (31 * a + c) % 2 ^ 32
unfolding hash_step
hash_step_lem u a c h e = omega arith

hash_loop-horner :
    (u a : ℕ) (str : List ℕ) → u < 2 ^ 32 → u ≡ a % 2 ^ 32 → hash_loop u str ≡ horner a str % 2 ^ 32
unfolding hash_loop
hash_loop-horner u a [] h e = e
hash_loop-horner u a (c ∷ cs) h e =
    let next = hash_step_lem u a c h e in
    hash_loop-horner (hash_step u c) (31 * a + c) cs (omega arith) next

-- The hash is the size of the polynomial in 31 as a 32-bit signed integer, at most 2 ^ 31.
pub simple_hash-horner :
    (str : List ℕ)
    → (simple_hash str ≡ magnitude (horner 0 str % 2 ^ 32)) × (simple_hash str ≤ 2 ^ 31)
unfolding simple_hash
simple_hash-horner str =
    let e = hash_loop-horner 0 0 str (omega arith) (omega arith) in
    (ap magnitude e, rw e (ground arith))

-- On a list that is not empty the strategy chooses a backend of the list.
pub select-In {ℓ} :
    {A : Type ℓ} (client_ip : List ℕ) (bs : List A)
    → 0 < length bs
    → (b : A) × (select client_ip bs ≡ some b) × In b bs
unfolding select
select-In client_ip bs h =
    let (b, e) =
      get_elem?-total bs (simple_hash client_ip % length bs) (mod-lt (simple_hash client_ip) h) in
    (b, e, get_elem?-In bs (simple_hash client_ip % length bs) e)
