-- ===== src/Base/Bytes.antt =====
-- Byte strings (`[u8]`, `Vec<u8>`) as lists of numbers, with Rust's order on them: lexicographic,
-- a prefix first.
use Prim.Native.Nat.{ℕ, compare, Ordering}
use Prim.Native.Char.{code}
use Prim.Native.String.{String}
use mathlib.Core.Path.{◌≡◌, refl, subst}
use mathlib.Core.Logic.{◌↔◌}
use mathlib.Core.List.{List, [], ◌∷◌}
use mathlib.Core.Bool.{Bool, true, false, ◌&&◌}
use native.Mathlib.Omega.{arith}
use storage_harvester.Base.Tests.{◌==◌}

abbrev pub Bytes : Type 0
Bytes = List ℕ

-- An ASCII text as its bytes.
abbrev pub text : String → Bytes
text String.[] = []
text (String.◌∷◌ c s) = code c ∷ text s

-- `Ordering::then`.
abbrev pub then_with : Ordering → Ordering → Ordering
then_with Ordering.eq o = o
then_with Ordering.lt o = Ordering.lt
then_with Ordering.gt o = Ordering.gt

unfoldable pub cmp : Bytes → Bytes → Ordering
cmp [] [] = Ordering.eq
cmp [] (b ∷ bs) = Ordering.lt
cmp (a ∷ as') [] = Ordering.gt
cmp (a ∷ as') (b ∷ bs) = then_with (compare a b) (cmp as' bs)

unfoldable pub eqb : Bytes → Bytes → Bool
eqb [] [] = true
eqb [] (b ∷ bs) = false
eqb (a ∷ as') [] = false
eqb (a ∷ as') (b ∷ bs) = a == b && eqb as' bs

pub cmp_self : (a : Bytes) → cmp a a ≡ Ordering.eq
unfolding cmp
cmp_self [] = refl
cmp_self (a ∷ as') = ground (arith, cmp_self as')

-- Bytes compare as equal only if they are.
pub cmp_eq : (a b : Bytes) → cmp a b ≡ Ordering.eq → a ≡ b
unfolding cmp
cmp_eq [] [] h = refl
cmp_eq [] (b ∷ bs) h = cc
cmp_eq (a ∷ as') [] h = cc
cmp_eq (a ∷ as') (b ∷ bs) h = ground (arith, cmp_eq as' bs)

pub cmp_flip : (a b : Bytes) → cmp a b ≡ Ordering.lt → cmp b a ≡ Ordering.gt
unfolding cmp
cmp_flip [] [] h = cc
cmp_flip [] (b ∷ bs) h = refl
cmp_flip (a ∷ as') [] h = cc
cmp_flip (a ∷ as') (b ∷ bs) h = ground (arith, cmp_flip as' bs)

pub cmp_flip_gt : (a b : Bytes) → cmp a b ≡ Ordering.gt → cmp b a ≡ Ordering.lt
unfolding cmp
cmp_flip_gt [] [] h = cc
cmp_flip_gt [] (b ∷ bs) h = cc
cmp_flip_gt (a ∷ as') [] h = refl
cmp_flip_gt (a ∷ as') (b ∷ bs) h = ground (arith, cmp_flip_gt as' bs)

pub cmp_trans :
    (a b c : Bytes) → cmp a b ≡ Ordering.lt → cmp b c ≡ Ordering.lt → cmp a c ≡ Ordering.lt
unfolding cmp
cmp_trans [] [] c h k = cc
cmp_trans [] (b ∷ bs) [] h k = cc
cmp_trans [] (b ∷ bs) (c ∷ cs) h k = refl
cmp_trans (a ∷ as') [] c h k = cc
cmp_trans (a ∷ as') (b ∷ bs) [] h k = cc
cmp_trans (a ∷ as') (b ∷ bs) (c ∷ cs) h k = ground (arith, cmp_trans as' bs cs)

eqb_self : (a : Bytes) → eqb a a ≡ true
unfolding eqb
eqb_self [] = refl
eqb_self (a ∷ as') = ground (arith, eqb_self as')

eqb_sound : (a b : Bytes) → eqb a b ≡ true → a ≡ b
unfolding eqb
eqb_sound [] [] h = refl
eqb_sound [] (b ∷ bs) h = cc
eqb_sound (a ∷ as') [] h = cc
eqb_sound (a ∷ as') (b ∷ bs) h = ground (arith, eqb_sound as' bs)

pub eqb_iff : (a b : Bytes) → (eqb a b ≡ true) ↔ (a ≡ b)
eqb_iff a b = (eqb_sound a b, λ e. subst (λ c. eqb a c ≡ true) e (eqb_self a))
