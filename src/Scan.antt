-- ===== src/Scan.antt =====
-- src/scanner/mod.rs: what a scan returns. Times and durations are nanoseconds.
use storage_harvester.Base.{ℕ, Option, List}
use storage_harvester.Base.Bytes.{Bytes}
use storage_harvester.Tree.Dir.{DirTree}

pub data EntryType : Type 0 where
  file symlink other : EntryType

pub record EntryObservation : Type 0 where
  pub parent_path : Bytes
  pub path : Bytes
  pub entry_type : EntryType
  pub depth : ℕ
  pub blocks : ℕ
  pub apparent : ℕ

pub record NodeObservation : Type 0 where
  pub path : Bytes
  pub parent : Bytes
  pub node : Bytes
  pub depth : ℕ
  pub ino : ℕ
  pub own_blocks : ℕ
  pub children_blocks : ℕ
  pub own_apparent : ℕ
  pub children_apparent : ℕ
  pub file_count : ℕ
  pub directory_count : ℕ
  pub symlink_count : ℕ
  pub children_file_count : ℕ
  pub children_directory_count : ℕ
  pub children_symlink_count : ℕ

pub record ScanResult : Type 0 where
  pub backend : Bytes
  pub observations : List NodeObservation
  pub entries : List EntryObservation
  pub permission_errors : ℕ
  pub missing_path_races : ℕ
  pub skipped_cross_device : ℕ
  pub skipped_excluded : ℕ
  pub scanned_files : ℕ
  pub scanned_directories : ℕ
  pub scanned_symlinks : ℕ
  pub max_observed_depth : ℕ
  pub depth_limit_hits : ℕ
  pub duration : ℕ
  pub timestamp : ℕ
  pub tree : Option DirTree
