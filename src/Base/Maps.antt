-- ===== src/Base/Maps.antt =====
-- A hash map as an association list without a key twice, for keys with a Boolean equality, and a
-- set of numbers as a list in increasing order.
use Prim.Native.Nat.{ℕ}
use mathlib.Core.Path.{◌≡◌, refl, sym, subst}
use mathlib.Core.Logic.{◌↔◌, inl, inr}
use mathlib.Core.Bool.{Bool, true, false, ◌&&◌, ◌||◌}
use mathlib.Core.List.{List, [], ◌∷◌}
use mathlib.Core.Option.{Option, none, some}
use native.Mathlib.Omega.{arith}
use storage_harvester.Base.Tests.{if◌then◌else◌, Bool-cases, ltb, ◌==◌}

module _ {K V : Type 0} (same : K → K → Bool) where
  unfoldable pub lookup : K → List (K × V) → Option V
  lookup k [] = none
  lookup k ((j, v) ∷ m) = let rest = lookup k m in if same j k then some v else rest

  unfoldable pub remove : K → List (K × V) → List (K × V)
  remove k [] = []
  remove k ((j, v) ∷ m) = let rest = remove k m in if same j k then rest else (j, v) ∷ rest

  abbrev pub insert : K → V → List (K × V) → List (K × V)
  insert k v m = (k, v) ∷ remove k m

  pub lookup-remove_self : (k : K) (m : List (K × V)) → lookup k (remove k m) ≡ none
  unfolding lookup remove
  lookup-remove_self k [] = refl
  lookup-remove_self k ((j, v) ∷ m) = ground (arith, lookup-remove_self k m)

  pub lookup-insert_self :
      (k : K) (v : V) (m : List (K × V)) → same k k ≡ true → lookup k (insert k v m) ≡ some v
  unfolding lookup
  lookup-insert_self k v m h = ground arith

  module _ (law : (a b : K) → (same a b ≡ true) ↔ (a ≡ b)) where
    pub lookup-remove_other :
        (j k : K) (m : List (K × V)) → same j k ≡ false → lookup k (remove j m) ≡ lookup k m
    unfolding lookup remove
    lookup-remove_other j k [] h = refl
    lookup-remove_other j k ((i, v) ∷ m) h =
        let rest = lookup-remove_other j k m h in
        elim (Bool-cases (same i j)) [
          | inl e ↦
              let other = subst (λ n. same n k ≡ false) (sym ((law i j).0 e)) h in ground arith
          | inr e ↦ ground arith
        ]

    pub lookup-insert_other :
        (j k : K) (v : V) (m : List (K × V))
        → same j k ≡ false
        → lookup k (insert j v m) ≡ lookup k m
    unfolding lookup
    lookup-insert_other j k v m h = let rest = lookup-remove_other j k m h in ground arith

-- A pair of numbers as a key.
abbrev pub same_pair : ℕ × ℕ → ℕ × ℕ → Bool
same_pair (a, b) (c, d) = a == c && b == d

pub same_pair_iff : (p q : ℕ × ℕ) → (same_pair p q ≡ true) ↔ (p ≡ q)
same_pair_iff p q = ground arith

unfoldable pub member : ℕ → List ℕ → Bool
member k [] = false
member k (x ∷ xs) = x == k || member k xs

-- A number put where it belongs, unless it is there.
unfoldable pub insert_key : ℕ → List ℕ → List ℕ
insert_key k [] = k ∷ []
insert_key k (x ∷ xs) =
    let rest = insert_key k xs in
    if k == x then x ∷ xs else if ltb k x then k ∷ x ∷ xs else x ∷ rest

-- `sort_unstable` and then `dedup`.
unfoldable pub sort_dedup : List ℕ → List ℕ
sort_dedup [] = []
sort_dedup (x ∷ xs) = insert_key x (sort_dedup xs)

pub member-insert_key :
    (j k : ℕ) (xs : List ℕ) → member j (insert_key k xs) ≡ (k == j || member j xs)
unfolding member insert_key
member-insert_key j k [] = ground arith
member-insert_key j k (x ∷ xs) = let rest = member-insert_key j k xs in ground arith

pub member-sort_dedup : (j : ℕ) (xs : List ℕ) → member j (sort_dedup xs) ≡ member j xs
unfolding member sort_dedup
member-sort_dedup j [] = refl
member-sort_dedup j (x ∷ xs) =
    let rest = member-sort_dedup j xs in
    let here = member-insert_key j x (sort_dedup xs) in ground arith
