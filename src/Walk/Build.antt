-- ===== src/Walk/Build.antt =====
-- src/scanner/native.rs: `build_tree`, which rolls the tracked directories up into a tree. A tracked
-- node has its name as bytes of its own, in place of a range of the buffer that all names share.
pub mod Flat
pub mod Forest
pub mod Rolled
pub mod Sorting
pub mod Summed
pub mod Whole
use Prim.Native.Nat.{Ordering}
use storage_harvester.Base.{
  ℕ, zero, suc, ◌-◌, ◌%◌, Bool, true, not, ◌||◌, ltb, Option, none, some, List, [], ◌∷◌, ◌++◌,
  if◌then◌else◌, set, length, get_elem?,
}
use storage_harvester.Base.Int.{ℤ, leb_ℤ}
use storage_harvester.Base.Bytes.{Bytes, cmp}
use storage_harvester.Base.Result.{Result, ok, ◌>>=◌, or_panic}
use storage_harvester.Tree.Tally.{Tally, add, is_empty}
use storage_harvester.Tree.Dir.{DirNode, DirTree, Inode, LinkOwner, to_seconds, node_at}

pub record TrackedNode : Type 0 where
  pub name : Bytes
  pub depth : ℕ
  pub parent : ℕ
  pub ino : ℕ
  pub own_blocks : ℕ
  pub own_apparent : ℕ
  pub mtime : ℤ
  pub sealed : Bool
  pub pruned : Bool
  pub handle : Option Bytes

pub record NodeTally : Type 0 where
  pub direct : Tally
  pub below : Tally
  pub newest : ℤ

abbrev pub max_ℤ : ℤ → ℤ → ℤ
max_ℤ a b = if leb_ℤ a b then b else a

unfoldable pub node_of : TrackedNode → NodeTally → DirNode
node_of n t = record {
  name = n.name;
  parent = n.parent;
  depth = n.depth % 4294967296;
  ino = n.ino;
  own_blocks = n.own_blocks;
  own_apparent = n.own_apparent;
  mtime = n.mtime;
  newest = max_ℤ (to_seconds n.mtime) t.newest;
  direct = t.direct;
  sub = add t.direct t.below;
  children = [];
  sealed = n.sealed || not (is_empty t.below);
  pruned = n.pruned;
  alive = true;
}

-- The nodes with the tallies of the same indices.
unfoldable pub nodes_of : ℕ → List TrackedNode → List NodeTally → Result (List DirNode)
nodes_of index [] tallies = ok []
nodes_of index (n ∷ ns) tallies = or_panic (get_elem? tallies index) >>= λ t.
    nodes_of (suc index) ns tallies >>= λ rest. ok (node_of n t ∷ rest)

abbrev pub with_handle : ℕ → Option Bytes → List (ℕ × Bytes) → List (ℕ × Bytes)
with_handle index none rest = rest
with_handle index (some h) rest = (index, h) ∷ rest

unfoldable pub handles_of : ℕ → List TrackedNode → List (ℕ × Bytes)
handles_of index [] = []
handles_of index (n ∷ ns) = with_handle index n.handle (handles_of (suc index) ns)

-- One round of the backwards pass.
unfoldable pub roll_one : ℕ → List DirNode → Result (List DirNode)
roll_one index nodes = node_at nodes index >>= λ n. node_at nodes n.parent >>= λ p. ok (
    set nodes n.parent (record p {
      sub = add p.sub n.sub;
      newest = max_ℤ p.newest n.newest;
      children = p.children ++ index ∷ [];
    }))

-- The indices from the given one down to 1.
unfoldable pub roll_up : ℕ → List DirNode → Result (List DirNode)
roll_up zero nodes = ok nodes
roll_up (suc i) nodes = roll_one (suc i) nodes >>= λ rolled. roll_up i rolled

-- A child that is not a node panics; in the tree each child is one.
unfoldable pub insert_child : List DirNode → DirNode → ℕ → List ℕ → Result (List ℕ)
insert_child nodes n i [] = ok (i ∷ [])
insert_child nodes n i (j ∷ js) = node_at nodes j >>= λ m.
    let rest = insert_child nodes n i js in
    elim (cmp m.name n.name) [
      | Ordering.lt ↦ rest >>= λ more. ok (j ∷ more)
      | Ordering.eq ↦ ok (i ∷ j ∷ js)
      | Ordering.gt ↦ ok (i ∷ j ∷ js)
    ]

-- `sort_by`: by name, equal ones as they came.
unfoldable pub sort_children : List DirNode → List ℕ → Result (List ℕ)
sort_children nodes [] = ok []
sort_children nodes (i ∷ is) =
    node_at nodes i >>= λ n. sort_children nodes is >>= λ sorted. insert_child nodes n i sorted

unfoldable pub with_children : DirNode → List ℕ → DirNode
with_children n children = record n {
  children = children;
  sealed = n.sealed || ltb (length children) n.direct.dirs;
}

-- The loop over the nodes: sorting reads names only, and those do not change.
unfoldable pub sort_all : List DirNode → List DirNode → Result (List DirNode)
sort_all all [] = ok []
sort_all all (n ∷ ns) = sort_children all n.children >>= λ children.
    sort_all all ns >>= λ rest. ok (with_children n children ∷ rest)

-- What is returned: `display` and `scan` are the target's paths.
abbrev pub tree_of :
    Bytes
    → Bytes
    → List TrackedNode
    → List (Inode × LinkOwner)
    → List (ℕ × ℕ)
    → ℕ
    → List DirNode
    → DirTree
tree_of display scan nodes links plain root_dev sorted = record {
  display_root = display;
  scan_root = scan;
  root_dev = root_dev;
  nodes = sorted;
  links = links;
  handles = handles_of 0 nodes;
  plain = plain;
  untracked_links = [];
}

-- Everything after the test for no nodes.
unfoldable pub build :
    Bytes
    → Bytes
    → List TrackedNode
    → List NodeTally
    → List (Inode × LinkOwner)
    → List (ℕ × ℕ)
    → ℕ
    → Result DirTree
build display scan nodes tallies links plain root_dev = nodes_of 0 nodes tallies >>= λ flat.
    roll_up (length flat - 1) flat >>= λ rolled.
    sort_all rolled rolled >>= λ sorted. ok (tree_of display scan nodes links plain root_dev sorted)

unfoldable pub build_tree :
    Bytes
    → Bytes
    → List TrackedNode
    → List NodeTally
    → List (Inode × LinkOwner)
    → List (ℕ × ℕ)
    → ℕ
    → Result (Option DirTree)
build_tree display scan [] tallies links plain root_dev = ok none
build_tree display scan (n ∷ ns) tallies links plain root_dev =
    build display scan (n ∷ ns) tallies links plain root_dev >>= λ t. ok (some t)
