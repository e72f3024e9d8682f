-- ===== src/Tree/Climb/Returns.antt =====
-- src/tree.rs: on a tree, `components` returns for each of its nodes.
use storage_harvester.Base.{
  ℕ, zero, suc, ◌<◌, ◌≡◌, refl, ◌≢◌, some, List, [], ◌∷◌, arith, length, get_elem?, get_elem?-some,
}
use mathlib.Core.List.{reverse}
use storage_harvester.Base.Bytes.{Bytes}
use storage_harvester.Base.Result.{ok}
use storage_harvester.Tree.Dir.{DirNode, DirTree, no_node}
use storage_harvester.Tree.Climb.{component_loop, components}
use storage_harvester.Tree.Climb.Ancestors.{parents, IsTree, length-parents, get_elem?-parents}

pub component_loop-step :
    (fuel : ℕ) (nodes : List DirNode) (i : ℕ) (n : DirNode) (parts : List Bytes)
    → suc i ≢ no_node
    → get_elem? nodes (suc i) ≡ some n
    → component_loop fuel nodes n.parent ≡ ok parts
    → component_loop (suc fuel) nodes (suc i) ≡ ok (n.name ∷ parts)
unfolding component_loop
component_loop-step fuel nodes i n parts ne e runs = ground arith

component_loop-returns :
    (fuel : ℕ) (nodes : List DirNode) (i : ℕ)
    → IsTree (parents nodes)
    → i < length nodes
    → i < fuel
    → (parts : List Bytes) × (component_loop fuel nodes i ≡ ok parts)
unfolding component_loop
component_loop-returns zero nodes i t h f = absurd (omega arith)
component_loop-returns (suc fuel) nodes zero t h f = ([], ground arith)
component_loop-returns (suc fuel) nodes (suc i) t h f =
    let (n, e) = get_elem?-some nodes (suc i) h in
    let le = t.up i n.parent (get_elem?-parents nodes (suc i) e) in
    let (parts, runs) = component_loop-returns fuel nodes n.parent t (omega arith) (omega arith) in
    (
      n.name ∷ parts,
      component_loop-step fuel nodes i n parts (omega (arith, t.fits, length-parents nodes)) e runs,
    )

pub components-returns :
    (t : DirTree) (i : ℕ)
    → IsTree (parents t.nodes)
    → i < length t.nodes
    → (path : List Bytes) × (components t i ≡ ok path)
unfolding components
components-returns t i tree h =
    let (parts, runs) = component_loop-returns (length t.nodes) t.nodes i tree h h in
    (reverse parts, rw runs refl)
