-- ===== src/Walk/Read.antt =====
-- src/scanner/native.rs: `read_dir`, which reads one directory of a walk. What the system answers is
-- data: whether the directory opens, and its entries in the order in which they come, each with
-- what `stat` says of it, how the reading ends, and what other threads did before the entry is
-- looked at (stopped the scan; asked `keeps` for a number of slots). The batches' borders are
-- left out, and names in buffers of their own are names.
pub mod Directory
pub mod Counting
pub mod Placing
pub mod Entries
pub mod Looped
pub mod Settling
pub mod Subdirs
pub mod Settled
pub mod Jobs
pub mod Whole
use storage_harvester.Base.{
  ℕ, zero, suc, ◌+◌, Bool, true, false, not, ◌&&◌, ◌||◌, Option, none, some, List, [], ◌∷◌, ◌++◌,
  ◌==◌, ltb, leb, if◌then◌else◌, max, length, map, set, get_elem?,
}
use storage_harvester.Base.Int.{ℤ, wrapping_add}
use storage_harvester.Base.Bytes.{Bytes, eqb, text}
use storage_harvester.Base.Result.{Result, ok, err, panic, ◌>>=◌, or_panic}
use storage_harvester.Config.{Target}
use storage_harvester.Scan.{EntryObservation, EntryType}
use storage_harvester.Tree.Tally.{Tally, empty, add, add_size}
use storage_harvester.Tree.Dir.{Inode, no_time, to_seconds}
use storage_harvester.Walk.{
  Counts, Link, Links, tolerate, is_permission_denied, keep_lowest, is_reported, push_component,
  child_path,
}
use storage_harvester.Walk.Build.{max_ℤ, NodeTally, TrackedNode}
use storage_harvester.Walk.Workers.{Job, Stop, cancelled, failed}

pub data Kind : Type 0 where
  file directory symlink other : Kind

pub record Stat : Type 0 where
  pub dev : ℕ
  pub ino : ℕ
  pub kind : Kind
  pub nlink : ℕ
  pub blocks : ℕ
  pub size : ℕ
  pub mtime : ℤ

-- `io::Result<Stat>`: an error by its number, if it has one.
pub data StatResult : Type 0 where
  stat : Stat → StatResult
  error : Option ℕ → StatResult

pub record Entry : Type 0 where
  pub name : Bytes
  pub answer : StatResult
  pub handle : Option Bytes
  pub stopped : Bool
  pub asked : ℕ

-- The walk: its target and what it fixed at its start. `exclude` is the target's set of patterns,
-- `link_key` the hash of a path, `plain_key` the key of a singly linked file.
pub record Setup : Type 0 where
  pub target : Target
  pub excluding : Bool
  pub exclude : Bytes → Bool
  pub root_dev : ℕ
  pub display_root : Bytes
  pub cap : ℕ
  pub for_fanotify : Bool
  pub link_key : Bytes → Bytes → ℕ
  pub plain_key : ℕ → ℕ → ℕ

-- A subdirectory that gets a node of its own.
pub record PendingDir : Type 0 where
  pub name : Bytes
  pub stat : Stat
  pub handle : Option Bytes
  pub descend : Bool

-- What the loop over the entries carries. `tracked` is the walk's count of slots asked for, `below`
-- the subdirectories without a node that are still to be read.
pub record Reader : Type 0 where
  pub counts : Counts
  pub sums : Tally
  pub newest : ℤ
  pub pruned : Bool
  pub tracked : ℕ
  pub pending : List PendingDir
  pub children : List Job
  pub entries : List EntryObservation
  pub links : Links
  pub link_dirs : List (Inode × ℕ)
  pub plain : List (ℕ × ℕ)

abbrev pub is_dot : Bytes → Bool
is_dot name = eqb name (text ".") || eqb name (text "..")

abbrev pub plus_one : ℕ → ℕ
plus_one n = wrapping_add n 1

-- `max_depth.is_none_or(|max_depth| depth < max_depth)`.
abbrev pub descends : Option ℕ → ℕ → Bool
descends none depth = true
descends (some max_depth) depth = ltb depth max_depth

-- Whether the file has other links.
abbrev pub is_shared : Stat → Bool
is_shared s = ltb 1 s.nlink

abbrev pub entry_type : Kind → EntryType
entry_type Kind.file = EntryType.file
entry_type Kind.symlink = EntryType.symlink
entry_type Kind.directory = EntryType.other
entry_type Kind.other = EntryType.other

abbrev pub is_file : Kind → Bool
is_file Kind.file = true
is_file Kind.directory = false
is_file Kind.symlink = false
is_file Kind.other = false

abbrev pub cross_device : Reader → Reader
cross_device r = record r {
  counts = record r.counts { skipped_cross_device = plus_one r.counts.skipped_cross_device };
}

abbrev pub excluded : Reader → Reader
excluded r = record r {
  counts = record r.counts { skipped_excluded = plus_one r.counts.skipped_excluded };
  pruned = true;
}

module _ (w : Setup) (job : Job) (dir_path : Bytes) (reported : Bool) where
  -- `keeps`: the slot's number is the count before this call.
  unfoldable pub keeps : ℕ → ℕ → Bool
  keeps depth reserved = leb depth w.target.report_depth || ltb reserved w.cap

  unfoldable pub fails : Option ℕ → Reader → Reader
  fails code r =
      if is_permission_denied code
      then record r {
        counts = record r.counts { permission_errors = plus_one r.counts.permission_errors };
      }
      else record r {
        counts = record r.counts { missing_path_races = plus_one r.counts.missing_path_races };
      }

  -- The counts and sums for a subdirectory, before it is decided who reads it.
  unfoldable pub count_directory : Stat → Bool → Reader → Reader
  count_directory s descend r = record r {
    counts = record r.counts {
      scanned_directories = plus_one r.counts.scanned_directories;
      depth_limit_hits =
          if descend then r.counts.depth_limit_hits else plus_one r.counts.depth_limit_hits;
    };
    sums = add_size (record r.sums { dirs = plus_one r.sums.dirs }) s.blocks s.size;
  }

  -- A subdirectory below which nothing is tracked.
  unfoldable pub queue_untracked : Bytes → Bool → Reader → Result Reader
  queue_untracked name false r = ok r
  queue_untracked name true r = child_path job.path name >>= λ path. ok (record r {
    children =
        r.children
        ++ record { path = path; depth = suc job.depth; node = job.node; tracked = false } ∷ [];
  })

  -- Where the job is tracked, the answer of `keeps` decides.
  unfoldable pub place_directory : Bytes → Stat → Option Bytes → Bool → Reader → Result Reader
  place_directory name s handle descend r =
      if job.tracked
      then (let asked = record r { tracked = suc r.tracked } in
          if keeps (suc job.depth) r.tracked
          then ok (record asked {
            pending =
                r.pending
                ++ record {
                  name = name;
                  stat = s;
                  handle = if w.for_fanotify then handle else none;
                  descend = descend;
                }
                  ∷ [];
          })
          else queue_untracked name descend asked)
      else queue_untracked name descend r

  unfoldable pub visit_directory : Bytes → Stat → Option Bytes → Reader → Result Reader
  visit_directory name s handle r =
      let descend = descends w.target.max_depth (suc job.depth) in
      place_directory name s handle descend (count_directory s descend r)

  unfoldable pub count_entry : Kind → Reader → Reader
  count_entry Kind.file r = record r {
    counts = record r.counts { scanned_files = plus_one r.counts.scanned_files };
    sums = record r.sums { files = plus_one r.sums.files };
  }
  count_entry Kind.symlink r = record r {
    counts = record r.counts { scanned_symlinks = plus_one r.counts.scanned_symlinks };
    sums = record r.sums { symlinks = plus_one r.sums.symlinks };
  }
  count_entry Kind.directory r = record r { sums = record r.sums { files = plus_one r.sums.files } }
  count_entry Kind.other r = record r { sums = record r.sums { files = plus_one r.sums.files } }

  -- The entry that a reported directory lists, and its index there.
  unfoldable pub list_entry : Bytes → Kind → ℕ → ℕ → Reader → Reader
  list_entry name kind blocks apparent r =
      if reported
      then (record r {
        entries =
            r.entries
            ++ record {
              parent_path = dir_path;
              path = push_component dir_path name;
              entry_type = entry_type kind;
              depth = suc job.depth;
              blocks = blocks;
              apparent = apparent;
            }
              ∷ [];
      })
      else r

  abbrev pub entry_index : Reader → Option ℕ
  entry_index r = if reported then some (length r.entries) else none

  -- A file that has other links, or one that has not.
  unfoldable pub keep_file : Bytes → Stat → Option ℕ → Reader → Reader
  keep_file name s entry r =
      if is_shared s
      then (record r {
        links =
            keep_lowest (s.dev, s.ino)
              (record {
                key = w.link_key job.path name;
                node = job.node;
                direct = job.tracked;
                blocks = s.blocks;
                apparent = s.size;
                entry = entry;
              })
              r.links;
        link_dirs =
            if job.tracked then r.link_dirs ++ ((s.dev, s.ino), job.node) ∷ [] else r.link_dirs;
      })
      else if w.for_fanotify && is_file s.kind
      then record r { plain = r.plain ++ (w.plain_key s.dev s.ino, job.node) ∷ [] }
      else r

  unfoldable pub visit_file : Bytes → Stat → Reader → Reader
  visit_file name s r =
      let blocks = if is_shared s then 0 else s.blocks in
      let apparent = if is_shared s then 0 else s.size in
      let counted = count_entry s.kind r in
      let summed = record counted { sums = add_size counted.sums blocks apparent } in
      keep_file name s (entry_index summed) (list_entry name s.kind blocks apparent summed)

  unfoldable pub visit_kind : Kind → Bytes → Stat → Option Bytes → Reader → Result Reader
  visit_kind Kind.directory name s handle r = visit_directory name s handle r
  visit_kind Kind.file name s handle r = ok (visit_file name s r)
  visit_kind Kind.symlink name s handle r = ok (visit_file name s r)
  visit_kind Kind.other name s handle r = ok (visit_file name s r)

  unfoldable pub visit_stat : Bytes → Stat → Option Bytes → Reader → Result Reader
  visit_stat name s handle r =
      if w.target.no_cross_filesystem && not (s.dev == w.root_dev)
      then ok (cross_device r)
      else visit_kind s.kind name s handle (record r {
        counts = record r.counts {
          max_observed_depth = max r.counts.max_observed_depth (suc job.depth);
        };
        newest = max_ℤ r.newest s.mtime;
      })

  unfoldable pub visit_answer : StatResult → Bytes → Option Bytes → Reader → Result Reader
  visit_answer (stat s) name handle r = visit_stat name s handle r
  visit_answer (error code) name handle r = ok (fails code r)

  -- One entry that is not `.` or `..`.
  unfoldable pub visit : Entry → Reader → Result Reader
  visit e r =
      if w.excluding && w.exclude (push_component dir_path e.name)
      then ok (excluded r)
      else visit_answer e.answer e.name e.handle (record r { tracked = r.tracked + e.asked })

  -- The loop over the entries; `none` where the scan was stopped.
  unfoldable pub visit_all : List Entry → Reader → Result (Option Reader)
  visit_all [] r = ok (some r)
  visit_all (e ∷ es) r = elim e.stopped [
    | true ↦ ok none
    | false ↦ elim (is_dot e.name) [ true ↦ visit_all es r | false ↦ visit e r >>= visit_all es ]
  ]
