-- ===== src/Examples/Readings.antt =====
-- src/scanner/native.rs: reading a directory, at a concrete one.
use storage_harvester.Base.{ℕ, ◌≡◌, refl, true, false, none, some, List, [], ◌∷◌, arith}
use storage_harvester.Base.Int.{pos}
use storage_harvester.Base.Bytes.{Bytes, text, eqb}
use storage_harvester.Base.Result.{ok}
use storage_harvester.Examples.Inputs.{sample_target}
use storage_harvester.Tree.Tally.{Tally}
use storage_harvester.Walk.{Counts, push_component}
use storage_harvester.Walk.Workers.{Job}
use storage_harvester.Walk.Read.{Setup, Entry, Stat, StatResult, stat, error, Kind}
use storage_harvester.Walk.Read.Directory.{Gathered, reads, holds, read_dir, shown_path}
use storage_harvester.Walk.Read.Whole.{IsRead, read_dir-IsRead, Adds}
use storage_harvester.Walk.Direct.{Listing, listed, read_direct}
use storage_harvester.Walk.Direct.Same.{read_direct-read_dir}
use storage_harvester.Examples.Walkers.{root, tracked}

abbrev walk : Setup
walk = record {
  target = sample_target;
  excluding = true;
  exclude = λ path. eqb path (text "/data/tmp");
  root_dev = 7;
  display_root = text "/data";
  cap = 100;
  for_fanotify = false;
  link_key = λ dir name. 1;
  plain_key = λ dev ino. ino;
}

abbrev of_kind : Kind → ℕ → Stat
of_kind kind nlink = record {
  dev = 7;
  ino = 50;
  kind = kind;
  nlink = nlink;
  blocks = 4096;
  size = 12;
  mtime = pos 5;
}

abbrev entry : Bytes → StatResult → Entry
entry name answer = record {
  name = name;
  answer = answer;
  handle = none;
  stopped = false;
  asked = 0;
}

abbrev entries : List Entry
entries =
    entry (text ".") (error none)
    ∷ entry (text "a") (stat (of_kind Kind.directory 2))
    ∷ entry (text "b") (stat (of_kind Kind.file 2))
    ∷ entry (text "c") (error (some 13))
    ∷ entry (text "tmp") (stat (of_kind Kind.directory 2))
    ∷ []

abbrev no_counts : Counts
no_counts = record {
  permission_errors = 0;
  missing_path_races = 0;
  skipped_cross_device = 0;
  skipped_excluded = 0;
  scanned_files = 0;
  scanned_directories = 0;
  scanned_symlinks = 0;
  max_observed_depth = 0;
  depth_limit_hits = 0;
}

abbrev gathered : Gathered
gathered = record {
  counts = no_counts;
  entries = [];
  links = [];
  link_dirs = [];
  plain = [];
  tallies = [];
  nodes = tracked [] 0 0 ∷ [];
  tracked = 1;
}

read_dir-IsRead_example :
    (sums : Tally) × (jobs : List Job) × (after : Gathered) × (read_dir walk root []
        (holds entries none)
        gathered
      ≡ ok (reads jobs after))
    × IsRead walk root [] entries gathered sums jobs after
unfolding push_component
read_dir-IsRead_example =
    read_dir-IsRead walk root [] entries gathered refl
      ((refl, refl), ((refl, refl), ((refl, refl), ((refl, refl), ((refl, refl), tt)))))
      (ground arith) (omega arith) (ground arith)

read_direct-read_dir_example :
    (l : Listing) × (jobs : List Job) × (after : Gathered) × (read_direct walk true
        (shown_path walk.display_root 0 [])
        (of_kind Kind.directory 3)
        entries
        none
      ≡ listed l)
    × (read_dir walk root [] (holds entries none) gathered ≡ ok (reads jobs after))
    × Adds root l.direct gathered.tallies after.tallies
unfolding push_component
read_direct-read_dir_example =
    read_direct-read_dir walk root [] true (of_kind Kind.directory 3) entries gathered refl
      ((refl, refl), ((refl, refl), ((refl, refl), ((refl, refl), ((refl, refl), tt)))))
      (ground arith) (omega arith) (ground arith)
