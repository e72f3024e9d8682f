-- ===== src/Examples/Walkers.antt =====
-- src/scanner/native.rs: the workers of a walk, and the tree that it builds, at concrete inputs.
use storage_harvester.Base.{◌≡◌, refl, none, some, true, false, List, [], ◌∷◌, arith, get_elem?, ℕ}
use storage_harvester.Walk.Workers.{
  Job, Reach, begun, later, moves, starts, exchanges, reads, System, Shared, JobQueue, left,
  exchange, take_job, pop, start, unspawned_workers, Worker,
}
use storage_harvester.Walk.Workers.Sums.{active, total}
use storage_harvester.Walk.Workers.Complete.{Reach-complete, Reach-active}
use storage_harvester.Base.{◌≤◌, sym, some_inj}
use storage_harvester.Base.Int.{pos, i64_max, sub_ℕ}
use storage_harvester.Base.Bytes.{Bytes, text}
use storage_harvester.Base.Result.{ok}
use storage_harvester.Tree.Dir.{DirTree, no_node}
use storage_harvester.Tree.Diff.{Change, diff}
use storage_harvester.Tree.Diff.Counters.{Counter, files, dirs, symlinks, blocks, apparent, count}
use storage_harvester.Tree.Diff.Steps.{total as total_change}
use storage_harvester.Walk.Build.{TrackedNode, NodeTally, build_tree}
use storage_harvester.Walk.Build.Flat.{held}
use storage_harvester.Walk.Build.Forest.{below}
use storage_harvester.Walk.Build.Whole.{IsWalked, diff-build_tree}
use storage_harvester.Examples.Trees.{tally, each}

abbrev pub root : Job
root = record { path = 47 ∷ []; depth = 0; node = 0; tracked = true }

abbrev child : Job
child = record { path = 47 ∷ 97 ∷ []; depth = 1; node = 1; tracked = true }

abbrev over_queue : JobQueue
over_queue = record { jobs = []; busy = 0; idle = 0; stopped = true }

abbrev over_shared : Shared
over_shared = record {
  queue = over_queue;
  halted = false;
  failure = none;
  found = root ∷ child ∷ [];
  done = child ∷ root ∷ [];
}

abbrev all_over : System
all_over = record { shared = over_shared; workers = left ∷ [] }

abbrev one_left : System
one_left = start root 0

walked : Reach root 0 all_over
unfolding exchange take_job pop start unspawned_workers
walked =
    later
      (later
        (later
          (later (later (later begun (starts 1 refl refl)) (moves 0 refl (exchanges [])))
            (moves 0 refl (reads root (child ∷ []))))
          (moves 0 refl (exchanges (child ∷ []))))
        (moves 0 refl (reads child [])))
      (moves 0 refl (exchanges []))

Reach-complete_example :
    (all_over.shared.queue.jobs ≡ [])
    × ((i : ℕ) (p : Worker) → get_elem? all_over.workers i ≡ some p → active p ≡ 0)
    × ((w : Job → ℕ) → total w all_over.shared.done ≡ total w all_over.shared.found)
Reach-complete_example = Reach-complete walked refl refl

Reach-active_example :
    (i : ℕ) × (p : Worker) × (get_elem? (start root 0).workers i ≡ some p) × (active p ≡ 1)
unfolding start
Reach-active_example = Reach-active {root = root} {others = 0} begun refl

abbrev pub tracked : Bytes → ℕ → ℕ → TrackedNode
tracked name parent depth = record {
  name = name;
  depth = depth;
  parent = parent;
  ino = depth;
  own_blocks = 4096;
  own_apparent = 10;
  mtime = pos 5000000000;
  sealed = false;
  pruned = false;
  handle = none;
}

abbrev older_nodes : List TrackedNode
older_nodes = tracked [] no_node 0 ∷ tracked (98 ∷ []) 0 1 ∷ tracked (97 ∷ []) 0 1 ∷ []

abbrev newer_nodes : List TrackedNode
newer_nodes = tracked [] no_node 0 ∷ tracked (97 ∷ []) 0 1 ∷ []

abbrev counted : ℕ → NodeTally
counted size = record { direct = tally size; below = tally 2; newest = pos 3 }

abbrev older_counts : List NodeTally
older_counts = counted 5 ∷ counted 6 ∷ counted 7 ∷ []

abbrev newer_counts : List NodeTally
newer_counts = counted 5 ∷ counted 9 ∷ []

older-fits : (c : Counter) → below (held c older_counts) 3 ≤ i64_max
unfolding count
older-fits files = omega arith
older-fits dirs = omega arith
older-fits symlinks = omega arith
older-fits blocks = omega arith
older-fits apparent = omega arith

newer-fits : (c : Counter) → below (held c newer_counts) 2 ≤ i64_max
unfolding count
newer-fits files = omega arith
newer-fits dirs = omega arith
newer-fits symlinks = omega arith
newer-fits blocks = omega arith
newer-fits apparent = omega arith

older-IsWalked : IsWalked older_nodes older_counts
older-IsWalked = record {
  tree = record {
    fits = omega arith;
    root = λ p e. sym (some_inj e);
    up = λ i p e. each (λ j q. q ≤ j) (0 ∷ 0 ∷ []) (omega arith, (omega arith, tt)) i p e;
  };
  rooted = omega arith;
  counted = omega arith;
  fits = older-fits;
}

newer-IsWalked : IsWalked newer_nodes newer_counts
newer-IsWalked = record {
  tree = record {
    fits = omega arith;
    root = λ p e. sym (some_inj e);
    up = λ i p e. each (λ j q. q ≤ j) (0 ∷ []) (omega arith, tt) i p e;
  };
  rooted = omega arith;
  counted = omega arith;
  fits = newer-fits;
}

diff-build_tree_example :
    (old new : DirTree) × (out : List Change) × (build_tree
        (text "/shown")
        (text "/read")
        older_nodes
        older_counts
        []
        []
        7
      ≡ ok (some old))
    × (build_tree (text "/shown") (text "/read") newer_nodes newer_counts [] [] 7 ≡ ok (some new))
    × (diff old new ≡ ok out)
    × ((c : Counter)
        → total_change c out
          ≡ sub_ℕ (below (held c newer_counts) 2) (below (held c older_counts) 3))
diff-build_tree_example =
    diff-build_tree (text "/shown") (text "/read") older_nodes newer_nodes older_counts newer_counts
      [] [] [] [] 7 7 older-IsWalked newer-IsWalked
