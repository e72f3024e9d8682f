-- ===== src/Tree.antt =====
-- src/tree.rs: the directory tree that a scan leaves behind.
pub mod Tally
pub mod Dir
pub mod Climb
pub mod Children
pub mod Diff
pub mod Detach
pub mod Pruned
pub mod Graft
