-- ===== src/Security/Blocking.antt =====
-- The set of blocked addresses.
use sentinel_adc.Base.{
  ◌≡◌, refl, ap, ◌∙◌, String, Bool, true, false, List, [], ◌∷◌, arith, str_eq, str_eq_iff,
  if◌then◌else◌, Bool-cases, inl, inr,
}
use sentinel_adc.Security.{has, block, unblock, is_blocked}

pub data Command : Type 0 where
  blocks unblocks : String → Command

-- The set after the commands, the latest first.
abbrev pub run : List Command → List String → List String
run [] s = s
run (blocks ip ∷ cs) s = block ip (run cs s)
run (unblocks ip ∷ cs) s = (unblock ip (run cs s)).1

-- What the latest command about an address says, or what held before.
abbrev pub verdict : String → Bool → List Command → Bool
verdict ip before [] = before
verdict ip before (blocks j ∷ cs) = if str_eq j ip then true else verdict ip before cs
verdict ip before (unblocks j ∷ cs) = if str_eq j ip then false else verdict ip before cs

-- No address stands twice in the list.
abbrev pub IsUnique : List String → Type 0
IsUnique [] = Unit
IsUnique (x ∷ xs) = (has x xs ≡ false) × IsUnique xs

has-block :
    (ip j : String) (s : List String)
    → has ip (block j s) ≡ (if str_eq j ip then true else has ip s)
unfolding has block
has-block ip j [] = ground arith
has-block ip j (x ∷ xs) =
    ground (arith, has-block ip j xs, str_eq_iff x j, str_eq_iff j ip, str_eq_iff x ip)

has-unblock :
    (ip j : String) (s : List String)
    → IsUnique s
    → has ip (unblock j s).1 ≡ (if str_eq j ip then false else has ip s)
unfolding has unblock
has-unblock ip j [] u = ground arith
has-unblock ip j (x ∷ xs) (fresh, u) =
    ground (arith, has-unblock ip j xs u, str_eq_iff x j, str_eq_iff j ip, str_eq_iff x ip)

block-IsUnique : (j : String) (s : List String) → IsUnique s → IsUnique (block j s)
unfolding block has
block-IsUnique j [] u = (refl, tt)
block-IsUnique j (x ∷ xs) (fresh, u) = elim (Bool-cases (str_eq x j)) [
  | inl same ↦ rw same (fresh, u)
  | inr other ↦
      rw other
        (ground (arith, has-block x j xs, str_eq_iff x j, str_eq_iff j x), block-IsUnique j xs u)
]

unblock-IsUnique : (j : String) (s : List String) → IsUnique s → IsUnique (unblock j s).1
unfolding unblock
unblock-IsUnique j [] u = tt
unblock-IsUnique j (x ∷ xs) (fresh, u) = elim (Bool-cases (str_eq x j)) [
  | inl same ↦ rw same u
  | inr other ↦ rw other (ground (arith, has-unblock x j xs u), unblock-IsUnique j xs u)
]

run-IsUnique : (cs : List Command) (s : List String) → IsUnique s → IsUnique (run cs s)
run-IsUnique [] s u = u
run-IsUnique (blocks j ∷ cs) s u = block-IsUnique j (run cs s) (run-IsUnique cs s u)
run-IsUnique (unblocks j ∷ cs) s u = unblock-IsUnique j (run cs s) (run-IsUnique cs s u)

has-run :
    (ip : String) (cs : List Command) (s : List String)
    → IsUnique s
    → has ip (run cs s) ≡ verdict ip (has ip s) cs
has-run ip [] s u = refl
has-run ip (blocks j ∷ cs) s u =
    has-block ip j (run cs s) ∙ ap (λ b. if str_eq j ip then true else b) (has-run ip cs s u)
has-run ip (unblocks j ∷ cs) s u =
    has-unblock ip j (run cs s) (run-IsUnique cs s u)
    ∙ ap (λ b. if str_eq j ip then false else b) (has-run ip cs s u)

unblock-has : (ip : String) (s : List String) → (unblock ip s).0 ≡ has ip s
unfolding unblock has
unblock-has ip [] = refl
unblock-has ip (x ∷ xs) = ground (arith, unblock-has ip xs)

-- From a list without repetitions, after any commands, an address is blocked exactly when the latest
-- command that names it blocked it, or, if none does, when it was blocked at the start; `unblock` tells
-- exactly whether it was; and no address stands twice in the list.
pub is_blocked-verdict :
    (ip : String) (cs : List Command) (s : List String)
    → IsUnique s
    → (is_blocked ip (run cs s) ≡ verdict ip (has ip s) cs)
      × ((unblock ip (run cs s)).0 ≡ is_blocked ip (run cs s))
      × IsUnique (run cs s)
is_blocked-verdict ip cs s u = (has-run ip cs s u, unblock-has ip (run cs s), run-IsUnique cs s u)
