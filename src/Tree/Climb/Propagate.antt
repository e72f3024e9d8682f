-- ===== src/Tree/Climb/Propagate.antt =====
-- src/tree.rs: `propagate` adds a difference to a node and its ancestors and to nothing else.
use storage_harvester.Base.{
  ℕ, zero, suc, ◌<◌, ◌≡◌, refl, ap, ◌≢◌, inl, inr, false, some, List, arith, length, get_elem?, set,
  ◌∙◌, sym, subst, get_elem?-some, length-set,
}
use storage_harvester.Base.Result.{ok}
use storage_harvester.Tree.Tally.{Delta, apply, is_zero}
use storage_harvester.Tree.Dir.{DirNode, no_node}
use storage_harvester.Tree.Climb.{propagate, propagate_loop}
use storage_harvester.Tree.Climb.Ancestors.{
  parents, IsTree, Above-parent, length-parents, get_elem?-parents, Climbs, written,
  parents-written, Climbs-root, Climbs-up,
}

abbrev pub with_delta : Delta → DirNode → DirNode
with_delta d n = record n { sub = apply n.sub d }

propagate_loop-no_node :
    (fuel : ℕ) (nodes : List DirNode) (d : Delta) → propagate_loop fuel nodes no_node d ≡ ok nodes
unfolding propagate_loop
propagate_loop-no_node zero nodes d = refl
propagate_loop-no_node (suc fuel) nodes d = refl

-- One round, at a node in range.
propagate_loop-step :
    (fuel : ℕ) (nodes : List DirNode) (i : ℕ) (d : Delta) (n : DirNode)
    → i ≢ no_node
    → get_elem? nodes i ≡ some n
    → propagate_loop (suc fuel) nodes i d
      ≡ propagate_loop fuel (set nodes i (with_delta d n)) n.parent d
unfolding propagate_loop
propagate_loop-step fuel nodes i d n ne e = ground arith

-- From a node of a tree the loop reaches the root, and adds the difference on its way.
propagate_loop-Climbs :
    (fuel : ℕ) (nodes : List DirNode) (i : ℕ) (d : Delta)
    → IsTree (parents nodes)
    → i < length nodes
    → i < fuel
    → (after : List DirNode) × (propagate_loop fuel nodes i d ≡ ok after)
      × Climbs (with_delta d) nodes i after
propagate_loop-Climbs zero nodes i d t h f = absurd (omega arith)
propagate_loop-Climbs (suc fuel) nodes i d t h f =
    let (n, e) = get_elem?-some nodes i h in
    let first =
      propagate_loop-step fuel nodes i d n (omega (arith, t.fits, length-parents nodes)) e in
    elim (Above-parent i n.parent t (get_elem?-parents nodes i e)) [
      | inl top ↦ (
        written (with_delta d) (λ _. refl) nodes i n t e,
        first
            ∙ (ap (λ p. propagate_loop fuel (set nodes i (with_delta d n)) p d) top
                ∙ propagate_loop-no_node fuel _ d),
        Climbs-root (with_delta d) (λ _. refl) nodes i n t e top,
      )
      | inr lt ↦
          let (after, runs, rest) =
            propagate_loop-Climbs fuel (set nodes i (with_delta d n)) n.parent d
              (subst IsTree (sym (parents-written (with_delta d) (λ _. refl) nodes i n t e)) t)
              (omega (arith, length-set nodes i (with_delta d n))) (omega arith) in
          (after, first ∙ runs, Climbs-up (with_delta d) (λ _. refl) nodes i n t e after lt rest)
    ]

-- On a tree, from any of its nodes, `propagate` returns: a difference that is not zero is added to
-- the `sub` of the node and of each of its ancestors, and every other node is unchanged.
pub propagate-Climbs :
    (nodes : List DirNode) (i : ℕ) (d : Delta)
    → IsTree (parents nodes)
    → i < length nodes
    → is_zero d ≡ false
    → (after : List DirNode) × (propagate nodes i d ≡ ok after)
      × Climbs (with_delta d) nodes i after
unfolding propagate
propagate-Climbs nodes i d t h z = rw z (propagate_loop-Climbs (length nodes) nodes i d t h h)
