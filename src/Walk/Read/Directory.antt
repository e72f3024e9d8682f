-- ===== src/Walk/Read/Directory.antt =====
-- src/scanner/native.rs: `read_dir`, around its loop over the entries: opening the directory, and
-- what is done once the entries have been looked at.
use storage_harvester.Base.{
  ℕ, zero, suc, Bool, true, false, not, ◌&&◌, Option, none, some, List, [], ◌∷◌, ◌++◌, ltb,
  if◌then◌else◌, length, map, set, get_elem?,
}
use storage_harvester.Base.Int.{ℤ}
use storage_harvester.Base.Bytes.{Bytes}
use storage_harvester.Base.Result.{Result, ok, err, panic, ◌>>=◌, or_panic}
use storage_harvester.Scan.{EntryObservation}
use storage_harvester.Tree.Tally.{Tally, empty, add}
use storage_harvester.Tree.Dir.{Inode, no_time, to_seconds}
use storage_harvester.Walk.{Counts, Links, tolerate, is_reported, push_component, child_path}
use storage_harvester.Walk.Build.{max_ℤ, NodeTally, TrackedNode}
use storage_harvester.Walk.Workers.{Job, Stop, cancelled, failed}
use storage_harvester.Walk.Read.{Setup, Entry, Reader, PendingDir, visit_all}

-- What the system says of a directory: it does not open, or these are its entries, and then an
-- error or the end.
pub data Opened : Type 0 where
  refused : Option ℕ → Opened
  holds : List Entry → Option (Option ℕ) → Opened

-- What a worker and the walk hold: the worker's own gatherings, and the nodes and the count of
-- slots of all workers.
pub record Gathered : Type 0 where
  pub counts : Counts
  pub entries : List EntryObservation
  pub links : Links
  pub link_dirs : List (Inode × ℕ)
  pub plain : List (ℕ × ℕ)
  pub tallies : List NodeTally
  pub nodes : List TrackedNode
  pub tracked : ℕ

-- The walk goes on, with children to read, or stops.
pub data Outcome : Type 0 where
  reads : List Job → Gathered → Outcome
  stops : Stop → Outcome

abbrev pub set_node : (TrackedNode → TrackedNode) → ℕ → List TrackedNode → Result (List TrackedNode)
set_node f i nodes = or_panic (get_elem? nodes i) >>= λ n. ok (set nodes i (f n))

-- `seal`.
unfoldable pub seal : Job → List TrackedNode → Result (List TrackedNode)
seal job nodes =
    if job.tracked then set_node (λ n. record n { sealed = true }) job.node nodes else ok nodes

abbrev pub no_tally : NodeTally
no_tally = record { direct = empty; below = empty; newest = no_time }

-- `Worker::tally`: the tallies up to a node's, those that are missing empty.
unfoldable pub grown : ℕ → List NodeTally → List NodeTally
grown zero [] = no_tally ∷ []
grown zero (t ∷ ts) = t ∷ ts
grown (suc n) [] = no_tally ∷ grown n []
grown (suc n) (t ∷ ts) = t ∷ grown n ts

abbrev pub add_part : Bool → Tally → NodeTally → NodeTally
add_part true sums t = record t { direct = add t.direct sums }
add_part false sums t = record t { below = add t.below sums }

-- What the directory held goes to the node's tally.
unfoldable pub add_tally : Job → Tally → ℤ → List NodeTally → Result (List NodeTally)
add_tally job sums newest tallies =
    let all = grown job.node tallies in
    or_panic (get_elem? all job.node) >>= λ t.
    let part = add_part job.tracked sums t in
    ok (set all job.node (record part { newest = max_ℤ part.newest (to_seconds newest) }))

abbrev pub node_for : Job → PendingDir → TrackedNode
node_for job dir = record {
  name = dir.name;
  depth = suc job.depth;
  parent = job.node;
  ino = dir.stat.ino;
  own_blocks = dir.stat.blocks;
  own_apparent = dir.stat.size;
  mtime = dir.stat.mtime;
  sealed = not dir.descend;
  pruned = false;
  handle = dir.handle;
}

-- The jobs for the nodes from the given index on: `u32::try_from(..).expect(..)`.
unfoldable pub jobs_for : Job → ℕ → List PendingDir → Result (List Job)
jobs_for job node [] = ok []
jobs_for job node (dir ∷ dirs) = elim dir.descend [
  | false ↦ jobs_for job (suc node) dirs
  | true ↦
      if ltb 4294967295 node
      then err panic
      else (child_path job.path dir.name >>= λ path. jobs_for job (suc node) dirs >>= λ rest.
          ok (record { path = path; depth = suc job.depth; node = node; tracked = true } ∷ rest))
]

-- The nodes once the directory is known to be pruned, and sealed where it could not all be read.
unfoldable pub mark_node : Job → Bool → List TrackedNode → Result (List TrackedNode)
mark_node job pruned nodes =
    if pruned && job.tracked
    then set_node (λ n. record n { pruned = true }) job.node nodes
    else ok nodes

-- Everything after the loop.
unfoldable pub finish_dir : Job → Reader → Gathered → Result Outcome
finish_dir job r g = mark_node job r.pruned g.nodes >>= λ nodes.
    jobs_for job (length nodes) r.pending >>= λ jobs.
    add_tally job r.sums r.newest g.tallies >>= λ tallies. ok (
      reads (r.children ++ jobs) (record {
        counts = r.counts;
        entries = r.entries;
        links = r.links;
        link_dirs = r.link_dirs;
        plain = r.plain;
        tallies = tallies;
        nodes = nodes ++ map (node_for job) r.pending;
        tracked = r.tracked;
      }))

abbrev pub reader_of : Gathered → Reader
reader_of g = record {
  counts = g.counts;
  sums = empty;
  newest = no_time;
  pruned = false;
  tracked = g.tracked;
  pending = [];
  children = [];
  entries = g.entries;
  links = g.links;
  link_dirs = g.link_dirs;
  plain = g.plain;
}

-- The path of a directory below the root of a walk: `path` is what follows the root's.
abbrev pub shown_path : Bytes → ℕ → Bytes → Bytes
shown_path root zero path = root
shown_path root (suc depth) path = push_component root path

-- After an error at the end of the entries: tolerated, or the walk stops.
unfoldable pub end_dir : Job → Option (Option ℕ) → Reader → Gathered → Result Outcome
end_dir job none r g = finish_dir job r g
end_dir job (some code) r g = seal job g.nodes >>= λ nodes. elim (tolerate r.counts code) [
  | none ↦ ok (stops (failed job.path))
  | some counts ↦ finish_dir job (record r { counts = counts }) (record g { nodes = nodes })
]

abbrev pub after_entries : Job → Option (Option ℕ) → Gathered → Option Reader → Result Outcome
after_entries job ended g none = ok (stops cancelled)
after_entries job ended g (some r) = end_dir job ended r g

-- `rel` is the job's path past the root's. A failure is known by the path that it names.
unfoldable pub read_dir : Setup → Job → Bytes → Opened → Gathered → Result Outcome
read_dir w job rel (refused code) g = seal job g.nodes >>= λ nodes. elim (tolerate g.counts code) [
  | none ↦ ok (stops (failed job.path))
  | some counts ↦ ok (reads [] (record g { counts = counts; nodes = nodes }))
]
read_dir w job rel (holds es ended) g =
    let reported = job.tracked && is_reported w.target job.depth in
    visit_all w job (shown_path w.display_root job.depth rel) reported es (reader_of g)
    >>= after_entries job ended g
