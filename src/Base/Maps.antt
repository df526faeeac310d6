-- ===== src/Base/Maps.antt =====
-- The JavaScript `Map` from strings, as an association list in the order of insertion.
use Prim.Native.String.{String}
use text.Mathlib.TextEquality.{eq_iff}
use mathlib.Core.Path.{◌≡◌, refl, ap}
use mathlib.Core.Logic.{◌≢◌, ◌⊎◌, inl, inr}
use mathlib.Core.Bool.{Bool, true, false}
use mathlib.Core.List.{List, [], ◌∷◌}
use mathlib.Core.Option.{Option, none, some}
use native.Mathlib.Omega.{arith}
use sentinel_adc.Base.Tests.{if◌then◌else◌, str_eq, Bool-cases}
use sentinel_adc.Base.Lists.{In, here, there}

abbrev pub Dict {ℓ} : Type ℓ → Type ℓ
Dict V = List (String × V)

module _ {ℓ} {V : Type ℓ} where
  -- `map.get(k)`.
  unfoldable pub lookup : String → Dict V → Option V
  lookup key [] = none
  lookup key ((other, x) ∷ entries) = if str_eq other key then some x else lookup key entries

  -- `map.set(k, v)`: an old key keeps its place, a new one goes to the end.
  unfoldable pub insert : String → V → Dict V → Dict V
  insert key x [] = (key, x) ∷ []
  insert key x ((other, y) ∷ entries) =
      if str_eq other key then (other, x) ∷ entries else (other, y) ∷ insert key x entries

  -- `map.delete(k)`.
  unfoldable pub remove : String → Dict V → Dict V
  remove key [] = []
  remove key ((other, x) ∷ entries) =
      if str_eq other key then remove key entries else (other, x) ∷ remove key entries

  -- `map.has(k)`.
  abbrev pub is_some : Option V → Bool
  is_some none = false
  is_some (some x) = true

  pub lookup-insert :
      (key other : String) (x : V) (entries : Dict V)
      → lookup other (insert key x entries)
        ≡ (if str_eq key other then some x else lookup other entries)
  unfolding lookup insert
  lookup-insert key other x [] = refl
  lookup-insert key other x ((old, y) ∷ entries) =
      ground (
        arith,
        eq_iff key other,
        eq_iff old key,
        eq_iff old other,
        lookup-insert key other x entries,
      )

  pub lookup-remove :
      (key other : String) (entries : Dict V)
      → lookup other (remove key entries)
        ≡ (if str_eq key other then none else lookup other entries)
  unfolding lookup remove
  lookup-remove key other [] = ground arith
  lookup-remove key other ((old, y) ∷ entries) =
      ground
        (arith, eq_iff key other, eq_iff old key, eq_iff old other, lookup-remove key other entries)

  pub lookup-insert_self :
      (key : String) (x : V) (entries : Dict V) → lookup key (insert key x entries) ≡ some x
  lookup-insert_self key x entries = ground (arith, lookup-insert key key x entries, eq_iff key key)

  pub lookup-insert_ne :
      (key other : String) (x : V) (entries : Dict V)
      → key ≢ other
      → lookup other (insert key x entries) ≡ lookup other entries
  lookup-insert_ne key other x entries h =
      ground (arith, lookup-insert key other x entries, eq_iff key other)

  pub lookup-remove_self :
      (key : String) (entries : Dict V) → lookup key (remove key entries) ≡ none
  lookup-remove_self key entries = ground (arith, lookup-remove key key entries, eq_iff key key)

  pub lookup-remove_ne :
      (key other : String) (entries : Dict V)
      → key ≢ other
      → lookup other (remove key entries) ≡ lookup other entries
  lookup-remove_ne key other entries h =
      ground (arith, lookup-remove key other entries, eq_iff key other)

-- No key stands twice.
abbrev pub IsMap : {V : Type 0} → Dict V → Type 0
IsMap [] = Unit
IsMap ((key, x) ∷ entries) = (lookup key entries ≡ none) × IsMap entries

pub insert-IsMap :
    {V : Type 0} (key : String) (x : V) (entries : Dict V)
    → IsMap entries
    → IsMap (insert key x entries)
unfolding insert lookup
insert-IsMap key x [] h = (refl, tt)
insert-IsMap key x ((j, y) ∷ entries) (fresh, h) = elim (Bool-cases (str_eq j key)) [
  | inl same ↦ rw same (fresh, h)
  | inr other ↦ rw other (
    ground (arith, lookup-insert key j x entries, eq_iff key j, eq_iff j key),
    insert-IsMap key x entries h,
  )
]

In-cons : {V : Type 0} (a e : V) (xs : List V) → In a (e ∷ xs) → (e ≡ a) ⊎ In a xs
In-cons a e xs here = inl refl
In-cons a e xs (there h) = inr h

-- The value of a key in a map is the one that stands with it.
pub In-lookup :
    {V : Type 0} (key : String) (x : V) (entries : Dict V)
    → IsMap entries
    → In (key, x) entries
    → lookup key entries ≡ some x
unfolding lookup
In-lookup key x [] h k = elim k [ ]
In-lookup key x ((j, y) ∷ entries) (fresh, h) k = elim (In-cons (key, x) (j, y) entries k) [
  | inl e ↦ ground (arith, ap (λ p. p.0) e, ap (λ p. p.1) e, eq_iff j key)
  | inr m ↦ ground (arith, In-lookup key x entries h m, eq_iff j key)
]
