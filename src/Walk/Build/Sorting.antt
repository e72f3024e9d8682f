-- ===== src/Walk/Build/Sorting.antt =====
-- src/scanner/native.rs: sorting the children in `build_tree` returns, and loses no child.
use Prim.Native.Nat.{Ordering}
use storage_harvester.Base.{
  ℕ, zero, suc, ◌<◌, ◌≡◌, ◌⊎◌, refl, ap, inl, inr, some, List, [], ◌∷◌, arith, All, length,
  get_elem?, get_elem?-some, Ordering-cases, some_inj, none≢some, subst,
}
use storage_harvester.Base.Bytes.{cmp}
use storage_harvester.Base.Result.{ok}
use storage_harvester.Tree.Dir.{DirNode}
use storage_harvester.Tree.Climb.Ancestors.{parents}
use storage_harvester.Walk.Build.{insert_child, sort_children, sort_all, with_children}
use storage_harvester.Walk.Build.Forest.{over}

-- `after` holds what `before` holds, in some order.
pub record IsShuffled (before after : List ℕ) : Type 1 where
  pub over_same : (f : ℕ → ℕ) → over f after ≡ over f before
  pub all_same : (P : ℕ → Type 0) → All P before → All P after

Shuffled-cons :
    {xs ys zs : List ℕ} (x : ℕ) → IsShuffled xs ys → IsShuffled (x ∷ ys) zs → IsShuffled (x ∷ xs) zs
Shuffled-cons x r s = record {
  over_same = λ f. omega (arith, r.over_same f, s.over_same f);
  all_same = λ P h. s.all_same P (h.0, r.all_same P h.1);
}

IsShuffled-refl : (xs : List ℕ) → IsShuffled xs xs
IsShuffled-refl xs = record { over_same = λ f. refl; all_same = λ P h. h }

-- A first element that goes behind the second.
IsShuffled-swap :
    {js more : List ℕ} (i j : ℕ) → IsShuffled (i ∷ js) more → IsShuffled (i ∷ j ∷ js) (j ∷ more)
IsShuffled-swap i j r = record {
  over_same = λ f. omega (arith, r.over_same f);
  all_same = λ P h. (h.1.0, r.all_same P (h.0, h.1.1));
}

module _ (nodes : List DirNode) where
  module _ (n m : DirNode) (i j : ℕ) (js : List ℕ) (e : get_elem? nodes j ≡ some m) where
    insert_child-behind :
        (more : List ℕ)
        → insert_child nodes n i js ≡ ok more
        → cmp m.name n.name ≡ Ordering.lt
        → insert_child nodes n i (j ∷ js) ≡ ok (j ∷ more)
    unfolding insert_child
    insert_child-behind more runs o = ground arith

    insert_child-here :
        (cmp m.name n.name ≡ Ordering.eq) ⊎ (cmp m.name n.name ≡ Ordering.gt)
        → insert_child nodes n i (j ∷ js) ≡ ok (i ∷ j ∷ js)
    unfolding insert_child
    insert_child-here (inl o) = ground arith
    insert_child-here (inr o) = ground arith

    insert_child-next :
        (more : List ℕ)
        → insert_child nodes n i js ≡ ok more
        → IsShuffled (i ∷ js) more
        → (out : List ℕ) × (insert_child nodes n i (j ∷ js) ≡ ok out) × IsShuffled (i ∷ j ∷ js) out
    insert_child-next more runs same = elim (Ordering-cases (cmp m.name n.name)) [
      | inl o ↦ (j ∷ more, insert_child-behind more runs o, IsShuffled-swap i j same)
      | inr o ↦ (i ∷ j ∷ js, insert_child-here o, IsShuffled-refl (i ∷ j ∷ js))
    ]

  insert_child-returns :
      (n : DirNode) (i : ℕ) (js : List ℕ)
      → All (λ j. j < length nodes) js
      → (out : List ℕ) × (insert_child nodes n i js ≡ ok out) × IsShuffled (i ∷ js) out
  unfolding insert_child
  insert_child-returns n i [] h = (i ∷ [], refl, IsShuffled-refl (i ∷ []))
  insert_child-returns n i (j ∷ js) h =
      let (m, e) = get_elem?-some nodes j h.0 in
      let (more, runs, same) = insert_child-returns n i js h.1 in
      insert_child-next n m i j js e more runs same

  sort_children-returns :
      (is : List ℕ)
      → All (λ j. j < length nodes) is
      → (out : List ℕ) × (sort_children nodes is ≡ ok out) × IsShuffled is out
  unfolding sort_children
  sort_children-returns [] h = ([], refl, IsShuffled-refl [])
  sort_children-returns (i ∷ is) h =
      let (n, e) = get_elem?-some nodes i h.0 in
      let (sorted, runs, same) = sort_children-returns is h.1 in
      let (out, puts, same') = insert_child-returns n i sorted (same.all_same _ h.1) in
      (out, rw e (rw runs puts), Shuffled-cons i same same')

  abbrev pub IsKept : List DirNode → List DirNode → Type 1
  IsKept before after =
      (i : ℕ) (n : DirNode)
      → get_elem? before i ≡ some n
      → (children : List ℕ) × (get_elem? after i ≡ some (with_children n children))
        × IsShuffled n.children children

  IsKept-cons :
      (ns rest : List DirNode) (n : DirNode) (children : List ℕ)
      → IsShuffled n.children children
      → IsKept ns rest
      → IsKept (n ∷ ns) (with_children n children ∷ rest)
  IsKept-cons ns rest n children same kept zero q e = (
    children,
    ap (λ m. some (with_children m children)) (some_inj e),
    subst (λ m. IsShuffled m.children children) (some_inj e) same,
  )
  IsKept-cons ns rest n children same kept (suc i) q e = kept i q e

  -- Every node keeps all but its `sealed` and the order of its children.
  pub sort_all-returns :
      (ns : List DirNode)
      → All (λ n. All (λ j. j < length nodes) n.children) ns
      → (out : List DirNode) × (sort_all nodes ns ≡ ok out)
        × (length out ≡ length ns)
        × (parents out ≡ parents ns)
        × IsKept ns out
  unfolding sort_all with_children
  sort_all-returns [] h = ([], refl, refl, refl, λ i n e. absurd (none≢some e))
  sort_all-returns (n ∷ ns) h =
      let (children, runs, same) = sort_children-returns n.children h.0 in
      let (rest, runs', long, ps, kept) = sort_all-returns ns h.1 in
      (
        with_children n children ∷ rest,
        rw runs (rw runs' refl),
        ap suc long,
        ap (λ ps. n.parent ∷ ps) ps,
        IsKept-cons ns rest n children same kept,
      )
