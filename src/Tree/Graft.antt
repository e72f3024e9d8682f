-- ===== src/Tree/Graft.antt =====
-- src/tree.rs: `graft`, which puts another tree below a node. Adding to an index or a depth is
-- `u32` arithmetic in a release build.
pub mod Shifted
pub mod Steps
pub mod Whole
use storage_harvester.Base.{
  ℕ, ◌+◌, ◌%◌, Option, none, some, List, [], ◌∷◌, ◌++◌, ◌==◌, if◌then◌else◌, map, length,
}
use storage_harvester.Base.Bytes.{Bytes}
use storage_harvester.Base.Maps.{same_pair, lookup, insert}
use storage_harvester.Base.Result.{Result, ok, ◌>>=◌}
use storage_harvester.Tree.Dir.{DirNode, DirTree, Inode, LinkOwner, no_node, node_at}
use storage_harvester.Tree.Climb.{touch}
use storage_harvester.Tree.Children.{attach}

abbrev pub add_u32 : ℕ → ℕ → ℕ
add_u32 a b = (a + b) % 4294967296

-- The loop over the other tree's nodes.
unfoldable pub moved_node : ℕ → ℕ → ℕ → DirNode → DirNode
moved_node under offset base_depth n = record n {
  parent = if n.parent == no_node then under else add_u32 n.parent offset;
  depth = add_u32 n.depth base_depth;
  children = map (λ k. add_u32 k offset) n.children;
}

abbrev pub moved_owner : ℕ → LinkOwner → LinkOwner
moved_owner offset o = record o {
  node = add_u32 o.node offset;
  others = map (λ k. add_u32 k offset) o.others;
}

-- `entry(inode).or_insert(owner)`.
abbrev pub or_insert :
    Inode → LinkOwner → Option LinkOwner → List (Inode × LinkOwner) → List (Inode × LinkOwner)
or_insert inode owner (some held) links = links
or_insert inode owner none links = insert same_pair inode owner links

unfoldable pub add_links :
    ℕ → List (Inode × LinkOwner) → List (Inode × LinkOwner) → List (Inode × LinkOwner)
add_links offset [] links = links
add_links offset ((inode, owner) ∷ more) links =
    add_links offset more
      (or_insert inode (moved_owner offset owner) (lookup same_pair inode links) links)

unfoldable pub graft : DirTree → ℕ → DirTree → Result (DirTree × ℕ)
graft t under other =
    let offset = length t.nodes in
    node_at t.nodes under >>= λ u. node_at other.nodes 0 >>= λ root.
    attach (t.nodes ++ map (moved_node under offset (add_u32 u.depth 1)) other.nodes) under offset
    >>= λ attached. touch attached under root.newest >>= λ nodes. ok (
      record t {
        nodes = nodes;
        links = add_links offset other.links t.links;
        handles = t.handles ++ map (λ h. (add_u32 h.0 offset, h.1)) other.handles;
        plain = t.plain ++ map (λ k. (k.0, add_u32 k.1 offset)) other.plain;
      },
      offset,
    )
