-- ===== src/Walk.antt =====
-- src/scanner/native.rs: what the walk counts, which errors it tolerates, which of a file's links it
-- keeps, which directories it reports and how. A system error is its number on Linux, if it has one.
pub mod Links
pub mod Workers
pub mod Build
pub mod Read
pub mod Direct
use storage_harvester.Base.{
  ℕ, suc, ◌+◌, ◌==◌, ltb, leb, Bool, true, false, ◌||◌, Option, none, some, List, [], ◌∷◌, ◌++◌,
  if◌then◌else◌, max,
}
use storage_harvester.Base.Int.{wrapping_add, wrapping_sub}
use storage_harvester.Base.Bytes.{Bytes, text}
use storage_harvester.Base.Maps.{same_pair, lookup, insert}
use storage_harvester.Base.Result.{Result, ok, err, panic, ◌>>=◌}
use storage_harvester.Config.{Target, ReportMode, tree, leaves}
use storage_harvester.Scan.{NodeObservation}
use storage_harvester.Tree.Dir.{DirTree, Inode, node_at}
use storage_harvester.Tree.Diff.{last_is_slash, display_path}

pub record Counts : Type 0 where
  pub permission_errors : ℕ
  pub missing_path_races : ℕ
  pub skipped_cross_device : ℕ
  pub skipped_excluded : ℕ
  pub scanned_files : ℕ
  pub scanned_directories : ℕ
  pub scanned_symlinks : ℕ
  pub max_observed_depth : ℕ
  pub depth_limit_hits : ℕ

-- `Counts::add`.
unfoldable pub add_counts : Counts → Counts → Counts
add_counts c other = record {
  permission_errors = wrapping_add c.permission_errors other.permission_errors;
  missing_path_races = wrapping_add c.missing_path_races other.missing_path_races;
  skipped_cross_device = wrapping_add c.skipped_cross_device other.skipped_cross_device;
  skipped_excluded = wrapping_add c.skipped_excluded other.skipped_excluded;
  scanned_files = wrapping_add c.scanned_files other.scanned_files;
  scanned_directories = wrapping_add c.scanned_directories other.scanned_directories;
  scanned_symlinks = wrapping_add c.scanned_symlinks other.scanned_symlinks;
  max_observed_depth = max c.max_observed_depth other.max_observed_depth;
  depth_limit_hits = wrapping_add c.depth_limit_hits other.depth_limit_hits;
}

abbrev pub is_one_of : Option ℕ → List ℕ → Bool
is_one_of none codes = false
is_one_of (some code) [] = false
is_one_of (some code) (c ∷ codes) = code == c || is_one_of (some code) codes

-- `EACCES` and `EPERM`.
abbrev pub is_permission_denied : Option ℕ → Bool
is_permission_denied error = is_one_of error (13 ∷ 1 ∷ [])

-- The counts after an error that the walk carries on from, `ENOENT`, `ENOTDIR`, `ELOOP` or
-- `ENAMETOOLONG` among them; `none` where the error stops the walk.
unfoldable pub tolerate : Counts → Option ℕ → Option Counts
tolerate c error =
    if is_permission_denied error
    then some (record c { permission_errors = wrapping_add c.permission_errors 1 })
    else if is_one_of error (2 ∷ 20 ∷ 40 ∷ 36 ∷ [])
    then some (record c { missing_path_races = wrapping_add c.missing_path_races 1 })
    else none

pub record Link : Type 0 where
  pub key : ℕ
  pub node : ℕ
  pub direct : Bool
  pub blocks : ℕ
  pub apparent : ℕ
  pub entry : Option ℕ

abbrev pub Links : Type 0
Links = List (Inode × Link)

abbrev pub lower : Link → Option Link → Bool
lower candidate none = true
lower candidate (some held) = ltb candidate.key held.key

unfoldable pub keep_lowest : Inode → Link → Links → Links
keep_lowest inode candidate links =
    if lower candidate (lookup same_pair inode links)
    then insert same_pair inode candidate links
    else links

unfoldable pub is_reported : Target → ℕ → Bool
is_reported target depth = elim target.report_mode [
  | tree ↦ leb depth target.report_depth
  | leaves ↦ depth == 0 || depth == target.report_depth
]

unfoldable pub push_component : Bytes → Bytes → Bytes
push_component path part = (if last_is_slash path then path else path ++ 47 ∷ []) ++ part

abbrev pub has_nul : Bytes → Bool
has_nul [] = false
has_nul (b ∷ bs) = b == 0 || has_nul bs

-- `CString::new(..).expect(..)`.
unfoldable pub child_path : Bytes → Bytes → Result Bytes
child_path parent name =
    let path = push_component parent name in if has_nul path then err panic else ok path

abbrev pub parent_and_name : DirTree → ℕ → ℕ → Bytes → Result (Bytes × Bytes)
parent_and_name t index parent name =
    if index == 0 then ok ([], text ".") else (display_path t parent >>= λ path. ok (path, name))

-- A name is kept as bytes, before its lossy conversion to text.
unfoldable pub observe : DirTree → ℕ → Result NodeObservation
observe t index = node_at t.nodes index >>= λ n.
    parent_and_name t index n.parent n.name >>= λ where_it_is. display_path t index >>= λ path.
    ok (record {
      path = path;
      parent = where_it_is.0;
      node = where_it_is.1;
      depth = n.depth;
      ino = n.ino;
      own_blocks = n.own_blocks;
      children_blocks = n.sub.blocks;
      own_apparent = n.own_apparent;
      children_apparent = n.sub.apparent;
      file_count = n.direct.files;
      directory_count = n.direct.dirs;
      symlink_count = n.direct.symlinks;
      children_file_count = wrapping_sub n.sub.files n.direct.files;
      children_directory_count = wrapping_sub n.sub.dirs n.direct.dirs;
      children_symlink_count = wrapping_sub n.sub.symlinks n.direct.symlinks;
    })
