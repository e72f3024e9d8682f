-- ===== src/Examples/Views.antt =====
-- src/tree.rs, src/scheduler.rs: detaching a node, grafting a tree, the pruned view, and what the
-- directories of a tree hold alone, at concrete inputs.
use storage_harvester.Base.{
  ℕ, suc, ◌≤◌, ◌<◌, ◌≡◌, refl, max, arith, some, List, [], ◌∷◌, All, get_elem?,
}
use storage_harvester.Base.Bytes.{text}
use storage_harvester.Base.Result.{ok}
use storage_harvester.Tree.Dir.{DirTree, DirNode, no_node}
use storage_harvester.Tree.Pruned.{pruned, Listed}
use storage_harvester.Tree.Pruned.Listing.{pruned-IsListed, listed_count, Entry}
use storage_harvester.Tree.Graft.{graft}
use storage_harvester.Tree.Graft.Whole.{graft-IsGrafted, IsGrafted}
use storage_harvester.Tree.Climb.Ancestors.{parents}
use storage_harvester.Walk.Build.Forest.{below}
use storage_harvester.Scheduler.Sharing.{roll_freed, roll_freed-root, held_at}
use storage_harvester.Examples.Trees.{
  newer, newer_nodes, sample-IsTree, newer-IsTree, sample, sample_nodes, node, each,
}

-- A file with one link in `a/x`, counted there, and one in `b`.
abbrev linked : DirTree
linked = record sample {
  links =
      ((1, 9), record { node = 3; blocks = 8; apparent = 5; others = 2 ∷ [] })
      ∷ ((1, 10), record { node = 2; blocks = 8; apparent = 5; others = 3 ∷ [] })
      ∷ [];
}

sample_kids :
    (i : ℕ) (m : DirNode) → get_elem? sample_nodes i ≡ some m → All (λ k. k < 4) m.children
sample_kids = each (λ i n. All (λ k. k < 4) n.children) sample_nodes (ground arith)

pruned-IsListed_example :
    (out : Listed) × (pruned sample_nodes 0 3 2 10 ≡ ok out)
    × (suc (listed_count sample_nodes 3 2 10 0 out) ≤ max 3 1)
    × All (Entry sample_nodes 3 2 10 0) out
pruned-IsListed_example =
    pruned-IsListed sample_nodes 0 3 2 10 (node [] no_node 0 18 1172 300 (1 ∷ 2 ∷ [])) sample_kids
      refl

abbrev shown_below : Listed
shown_below = (0, (1108, 1) ∷ []) ∷ []

graft-IsGrafted_example :
    (after : DirTree) × (graft sample 2 newer ≡ ok (after, 4))
    × IsGrafted sample_nodes 2 newer_nodes after.nodes
graft-IsGrafted_example =
    graft-IsGrafted sample 2 newer (node (text "b") 0 1 50 50 50 [])
      (node [] no_node 0 18 1422 400 (1 ∷ [])) sample-IsTree newer-IsTree (omega arith) refl refl tt

roll_freed-root_example :
    (freed : List ℕ) × (roll_freed (parents sample_nodes) (5 ∷ 6 ∷ 7 ∷ 8 ∷ []) ≡ ok freed)
    × (held_at freed 0 ≡ below (held_at (5 ∷ 6 ∷ 7 ∷ 8 ∷ [])) 4)
roll_freed-root_example =
    roll_freed-root (parents sample_nodes) (5 ∷ 6 ∷ 7 ∷ 8 ∷ []) sample-IsTree refl (omega arith)
      (omega arith)
