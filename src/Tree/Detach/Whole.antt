-- ===== src/Tree/Detach/Whole.antt =====
-- src/tree.rs: what `detach` does to the tree.
use storage_harvester.Base.{ℕ, ◌<◌, ◌≡◌, false, [], ◌∷◌, length}
use storage_harvester.Tree.Dir.{DirTree}
use storage_harvester.Tree.Dir.Reads.{kids_at}
use storage_harvester.Tree.Diff.Counters.{Counter}
use storage_harvester.Tree.Diff.Steps.{sub_at}
use storage_harvester.Tree.Detach.{Links}
use storage_harvester.Tree.Detach.Links.{IsSwept}
use storage_harvester.Tree.Detach.Marks.{Covered}
use storage_harvester.Tree.Detach.Unlinked.{cut, alive_at}

-- `child`, whose parent is `p`, was detached.
pub record IsDetached (t : DirTree) (p child : ℕ) (after : DirTree) (counted : Links) : Type 0 where
  pub kids : kids_at after.nodes ≡ cut p child (kids_at t.nodes)
  pub dead :
      (j : ℕ)
      → j < length t.nodes
      → Covered (kids_at after.nodes) (child ∷ []) j
      → alive_at after.nodes j ≡ false
  pub others :
      (j : ℕ)
      → j < length t.nodes
      → ¬ Covered (kids_at after.nodes) (child ∷ []) j
      → alive_at after.nodes j ≡ alive_at t.nodes j
  pub sub : (c : Counter) (j : ℕ) → j < length t.nodes → sub_at c after.nodes j ≡ sub_at c t.nodes j
  pub links : IsSwept after.nodes t.links after.links counted
