-- ===== src/Tree/Dir.antt =====
-- src/tree.rs: `DirNode`, `LinkOwner` and `DirTree`, and reading a node by its index. A `u32` index
-- is a number; `NONE` is the largest. The tree's `pool` field (a thin pool's readings, of lvm.rs)
-- is left out: no operation modelled here reads it.
pub mod Reads
use storage_harvester.Base.{ℕ, ◌/◌, Bool, List, if◌then◌else◌, get_elem?}
use storage_harvester.Base.Int.{ℤ, pos, negsuc, eqb_ℤ, i64_max, saturating_add}
use storage_harvester.Base.Bytes.{Bytes}
use storage_harvester.Base.Result.{Result, or_panic}
use storage_harvester.Tree.Tally.{Tally}

-- `NONE`: `u32::MAX`.
abbrev pub no_node : ℕ
no_node = 4294967295

-- `NO_TIME`: `i64::MIN`.
abbrev pub no_time : ℤ
no_time = negsuc i64_max

abbrev pub billion : ℕ
billion = 1000000000

-- A time in nanoseconds as seconds, rounded down (`div_euclid`), `NO_TIME` kept.
unfoldable pub to_seconds : ℤ → ℤ
to_seconds (pos n) = pos (n / billion)
to_seconds (negsuc n) = if eqb_ℤ (negsuc n) no_time then no_time else negsuc (n / billion)

pub record DirNode : Type 0 where
  pub name : Bytes
  pub parent : ℕ
  pub depth : ℕ
  pub ino : ℕ
  pub own_blocks : ℕ
  pub own_apparent : ℕ
  pub mtime : ℤ
  pub newest : ℤ
  pub direct : Tally
  pub sub : Tally
  pub children : List ℕ
  pub sealed : Bool
  pub pruned : Bool
  pub alive : Bool

unfoldable pub total_blocks : DirNode → ℕ
total_blocks n = saturating_add n.own_blocks n.sub.blocks

unfoldable pub total_apparent : DirNode → ℕ
total_apparent n = saturating_add n.own_apparent n.sub.apparent

-- A `(dev, ino)` pair.
abbrev pub Inode : Type 0
Inode = ℕ × ℕ

pub record LinkOwner : Type 0 where
  pub node : ℕ
  pub blocks : ℕ
  pub apparent : ℕ
  pub others : List ℕ

-- The hash map `links` is an association list.
pub record DirTree : Type 0 where
  pub display_root : Bytes
  pub scan_root : Bytes
  pub root_dev : ℕ
  pub nodes : List DirNode
  pub links : List (Inode × LinkOwner)
  pub handles : List (ℕ × Bytes)
  pub plain : List (ℕ × ℕ)
  pub untracked_links : List Inode

-- `nodes[i as usize]`.
abbrev pub node_at : List DirNode → ℕ → Result DirNode
node_at nodes i = or_panic (get_elem? nodes i)
