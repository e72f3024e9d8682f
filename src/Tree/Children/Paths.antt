-- ===== src/Tree/Children/Paths.antt =====
-- src/tree.rs: a node's path, from `components`, leads `find` back to the node.
use mathlib.Core.List.{reverse, reverse-cons}
use storage_harvester.Base.{
  ℕ, zero, suc, ◌<◌, ◌≡◌, refl, ◌≢◌, inl, inr, some, none, List, [], ◌∷◌, ◌++◌, arith, length,
  get_elem?, get_elem?-some,
}
use storage_harvester.Base.Bytes.{Bytes, eqb_iff}
use storage_harvester.Base.Result.{ok, Result-cases}
use storage_harvester.Tree.Dir.{DirNode, DirTree, no_node}
use storage_harvester.Tree.Climb.{component_loop, components}
use storage_harvester.Tree.Climb.Ancestors.{
  parents, IsTree, Above, here, up, length-parents, get_elem?-parents,
}
use storage_harvester.Tree.Climb.Returns.{component_loop-step}
use storage_harvester.Tree.Children.{child_named, strip_prefix, descend, find}

-- From a node up, each node but the root is the child that its parent lists under its name.
abbrev pub IsListed : List DirNode → ℕ → Type 0
IsListed nodes i =
    (j : ℕ) (n : DirNode)
    → Above (parents nodes) i j
    → j ≢ 0
    → get_elem? nodes j ≡ some n
    → child_named nodes n.parent n.name ≡ ok (some j)

descend-snoc :
    (nodes : List DirNode) (a b c : ℕ) (x : Bytes) (xs : List Bytes)
    → descend nodes a xs ≡ ok (some b)
    → child_named nodes b x ≡ ok (some c)
    → descend nodes a (xs ++ x ∷ []) ≡ ok (some c)
unfolding descend
descend-snoc nodes a b c x [] h k = ground arith
descend-snoc nodes a b c x (y ∷ xs) h k = elim (Result-cases (child_named nodes a y)) [
  | inl (none, e) ↦ ground arith
  | inl (some j, e) ↦ rw e (descend-snoc nodes j b c x xs (rw e at h) k)
  | inr (f, e) ↦ ground arith
]

-- The loop's names, from the root down, lead back to the node.
component_loop-descend :
    (fuel : ℕ) (nodes : List DirNode) (i : ℕ)
    → IsTree (parents nodes)
    → IsListed nodes i
    → i < length nodes
    → i < fuel
    → (parts : List Bytes) × (component_loop fuel nodes i ≡ ok parts)
      × (descend nodes 0 (reverse parts) ≡ ok (some i))
unfolding component_loop descend
component_loop-descend zero nodes i t l h f = absurd (omega arith)
component_loop-descend (suc fuel) nodes zero t l h f = ([], ground arith, refl)
component_loop-descend (suc fuel) nodes (suc i) t l h f =
    let (n, e) = get_elem?-some nodes (suc i) h in
    let ep = get_elem?-parents nodes (suc i) e in
    let le = t.up i n.parent ep in
    let has : n.parent ≢ no_node = omega (arith, t.fits, length-parents nodes) in
    let (parts, runs, leads) =
      component_loop-descend fuel nodes n.parent t (λ j m a. l j m (up ep has a)) (omega arith)
        (omega arith) in
    (
      n.name ∷ parts,
      component_loop-step fuel nodes i n parts (omega (arith, t.fits, length-parents nodes)) e runs,
      rw (reverse-cons n.name parts) (
          descend-snoc nodes 0 n.parent (suc i) n.name (reverse parts) leads
            (l (suc i) n (here (suc i)) (omega arith) e)),
    )

strip_prefix-append : (root rest : List Bytes) → strip_prefix (root ++ rest) root ≡ some rest
unfolding strip_prefix
strip_prefix-append [] [] = refl
strip_prefix-append [] (x ∷ rest) = refl
strip_prefix-append (r ∷ root) rest =
    ground (arith, (eqb_iff r r).1 refl, strip_prefix-append root rest)

-- In a tree whose nodes, from the given one up, are listed by their parents under their names,
-- `components` returns the node's path, and `find` follows it, below the tree's own path, to the
-- node.
pub find-components :
    (t : DirTree) (root : List Bytes) (i : ℕ)
    → IsTree (parents t.nodes)
    → IsListed t.nodes i
    → i < length t.nodes
    → (path : List Bytes) × (components t i ≡ ok path)
      × (find t.nodes root (root ++ path) ≡ ok (some i))
unfolding components find
find-components t root i tree listed h =
    let (parts, runs, leads) = component_loop-descend (length t.nodes) t.nodes i tree listed h h in
    (reverse parts, rw runs refl, rw (strip_prefix-append root (reverse parts), find) leads)
