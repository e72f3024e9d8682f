-- ===== src/Tree/Pruned/Amounts.antt =====
-- src/tree.rs: what `node_json` says of a node adds up.
use storage_harvester.Base.{ℕ, ◌+◌, Option, none, some, List, get_elem?, [], ◌∷◌}
use storage_harvester.Tree.Dir.{DirNode}

abbrev pub own_blocks_of : Option DirNode → ℕ
own_blocks_of none = 0
own_blocks_of (some n) = n.own_blocks

-- What the inodes of some nodes hold by themselves, without wrapping.
abbrev pub own_blocks_at : List DirNode → List ℕ → ℕ
own_blocks_at nodes [] = 0
own_blocks_at nodes (k ∷ ks) = own_blocks_of (get_elem? nodes k) + own_blocks_at nodes ks
