-- ===== src/Pool/Laws.antt =====
-- How the assignments to one backend show in a later search of the pool.
use mathlib.Core.Option
use text.Mathlib.TextEquality.{eq_iff}
use sentinel_adc.Base.{
  String, ◌≡◌, ◌≢◌, refl, [], ◌∷◌, some, arith, str_eq, if◌then◌else◌, length, map,
}
use sentinel_adc.Pool.{Backend, Pool, find, modify}

pub find-modify :
    (i j : String) (f : Backend → Backend) (p : Pool)
    → ((b : Backend) → (f b).id ≡ b.id)
    → find j (modify i f p) ≡ (if str_eq i j then Option.map f (find j p) else find j p)
unfolding find modify
find-modify i j f [] keep = ground arith
find-modify i j f (b ∷ bs) keep =
    ground (arith, keep b, eq_iff i j, eq_iff b.id i, eq_iff b.id j, find-modify i j f bs keep)

pub find-id : (i : String) (p : Pool) (b : Backend) → find i p ≡ some b → b.id ≡ i
unfolding find
find-id i [] b h = ground arith
find-id i (b ∷ bs) c h = ground (arith, eq_iff b.id i, find-id i bs c)

pub ids-modify :
    (i : String) (f : Backend → Backend) (p : Pool)
    → ((b : Backend) → (f b).id ≡ b.id)
    → map (λ b. b.id) (modify i f p) ≡ map (λ b. b.id) p
unfolding modify
ids-modify i f [] keep = refl
ids-modify i f (b ∷ bs) keep = ground (arith, keep b, ids-modify i f bs keep)

pub length-modify :
    (i : String) (f : Backend → Backend) (p : Pool) → length (modify i f p) ≡ length p
unfolding modify
length-modify i f [] = refl
length-modify i f (b ∷ bs) = ground (arith, length-modify i f bs)

pub find-modify_ne :
    (i j : String) (f : Backend → Backend) (p : Pool)
    → ((b : Backend) → (f b).id ≡ b.id)
    → i ≢ j
    → find j (modify i f p) ≡ find j p
find-modify_ne i j f p keep h = ground (arith, find-modify i j f p keep, eq_iff i j)

pub find-modify_self :
    (i : String) (f : Backend → Backend) (p : Pool)
    → ((b : Backend) → (f b).id ≡ b.id)
    → find i (modify i f p) ≡ Option.map f (find i p)
find-modify_self i f p keep = ground (arith, find-modify i i f p keep, eq_iff i i)
