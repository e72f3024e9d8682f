-- ===== src/Walk/Workers.antt =====
-- src/scanner/native.rs: `Walk::run`, `work`, `exchange` and `halt`: the workers of one walk and the
-- queue of directories that they share, as steps in any order. What one of them does while it
-- holds the queue's lock is one step; a wait may end at any time, so each wake-up, needed or not,
-- is a step. `found` and `done` stand in no variable of the code: the jobs that came up so far,
-- and those whose directory was read.
pub mod Sums
pub mod Accounts
pub mod Complete
use storage_harvester.Base.{
  ℕ, zero, suc, ◌+◌, ◌-◌, ◌==◌, ◌≡◌, ◌≢◌, Bool, true, false, Option, none, some, List, [], ◌∷◌,
  ◌++◌, if◌then◌else◌, get_elem?, set, length,
}
use storage_harvester.Base.Bytes.{Bytes}

pub record Job : Type 0 where
  pub path : Bytes
  pub depth : ℕ
  pub node : ℕ
  pub tracked : Bool

pub record JobQueue : Type 0 where
  pub jobs : List Job
  pub busy : ℕ
  pub idle : ℕ
  pub stopped : Bool

pub data Stop : Type 0 where
  cancelled : Stop
  failed : Bytes → Stop

-- `Vec::pop`.
unfoldable pub pop : List Job → Option (Job × List Job)
pop [] = none
pop (j ∷ js) = elim (pop js) [ none ↦ some (j, []) | some (last, rest) ↦ some (last, j ∷ rest) ]

-- Where a worker is: the first one spawning the one of an index, and then any of them before it
-- calls `exchange` with the children that it found, in its wait, reading a directory, having failed in one
-- and about to stop the others, or out of `work`, after such a failure or not.
pub data Worker : Type 0 where
  spawning : ℕ → Worker
  unspawned waiting left : Worker
  offering : List Job → Worker
  reading halting broken : Job → Worker

pub record Shared : Type 0 where
  pub queue : JobQueue
  pub halted : Bool
  pub failure : Option Bytes
  pub found : List Job
  pub done : List Job

-- The loop of `exchange` from its start to a return or the next wait.
unfoldable pub take_job : JobQueue → Worker × JobQueue
take_job q = if q.stopped then (left, q) else elim (pop q.jobs) [
  | some (job, rest) ↦ (reading job, record q { jobs = rest; busy = suc q.busy })
  | none ↦
      if q.busy == 0
      then (left, record q { stopped = true })
      else (waiting, record q { idle = suc q.idle })
]

-- `exchange`, to its return or its first wait.
unfoldable pub exchange : List Job → JobQueue → Worker × JobQueue
exchange children q = elim (pop children) [
  | none ↦ take_job (record q { busy = q.busy - 1 })
  | some (own, []) ↦ (reading own, q)
  | some (own, other ∷ rest) ↦ (reading own, record q { jobs = q.jobs ++ other ∷ rest })
]

-- The rest of `exchange` after a wait.
unfoldable pub wake : JobQueue → Worker × JobQueue
wake q = take_job (record q { idle = q.idle - 1 })

-- The first part of `halt`: the first failure is kept.
abbrev pub keep_failure : Stop → Option Bytes → Option Bytes
keep_failure cancelled kept = kept
keep_failure (failed error) none = some error
keep_failure (failed error) (some first) = some first

abbrev pub with_queue : Shared → JobQueue → Shared
with_queue s q = record s { queue = q }

-- What one worker does next, to the shared state and to itself.
pub data Move (s : Shared) : Worker → Shared → Worker → Type 0 where
  exchanges :
      (children : List Job)
      → Move s
          (offering children)
          (with_queue s (exchange children s.queue).1)
          (exchange children s.queue).0
  wakes : Move s waiting (with_queue s (wake s.queue).1) (wake s.queue).0
  reads :
      (job : Job) (children : List Job)
      → Move s
          (reading job)
          (record s { found = s.found ++ children; done = job ∷ s.done })
          (offering children)
  fails :
      (job : Job) (stop : Stop)
      → Move s
          (reading job)
          (record s { failure = keep_failure stop s.failure; halted = true })
          (halting job)
  halts :
      (job : Job)
      → Move s (halting job) (with_queue s (record s.queue { stopped = true })) (broken job)

pub record System : Type 0 where
  pub shared : Shared
  pub workers : List Worker

abbrev pub without_one : Shared → Shared
without_one s = with_queue s (record s.queue { busy = s.queue.busy - 1 })

pub data Step (s : System) : System → Type 0 where
  moves :
      (i : ℕ) {p p' : Worker} {next : Shared}
      → get_elem? s.workers i ≡ some p
      → Move s.shared p next p'
      → Step s (record { shared = next; workers = set s.workers i p' })
  spawns :
      (k : ℕ)
      → get_elem? s.workers 0 ≡ some (spawning k)
      → get_elem? s.workers k ≡ some unspawned
      → Step s (record s { workers = set (set s.workers k (offering [])) 0 (spawning (suc k)) })
  spawn_fails :
      (k : ℕ)
      → get_elem? s.workers 0 ≡ some (spawning k)
      → get_elem? s.workers k ≡ some unspawned
      → Step s (record {
        shared = without_one s.shared;
        workers = set (set s.workers k left) 0 (spawning (suc k));
      })
  starts :
      (k : ℕ)
      → get_elem? s.workers 0 ≡ some (spawning k)
      → k ≡ length s.workers
      → Step s (record s { workers = set s.workers 0 (offering []) })

unfoldable pub unspawned_workers : ℕ → List Worker
unspawned_workers zero = []
unspawned_workers (suc n) = unspawned ∷ unspawned_workers n

-- `run` with one worker and `others` more: the root is queued, and each of them is busy.
unfoldable pub start : Job → ℕ → System
start root others = record {
  shared = record {
    queue = record { jobs = root ∷ []; busy = suc others; idle = 0; stopped = false };
    halted = false;
    failure = none;
    found = root ∷ [];
    done = [];
  };
  workers = spawning 1 ∷ unspawned_workers others;
}

pub data Reach (root : Job) (others : ℕ) : System → Type 0 where
  begun : Reach root others (start root others)
  later : {s t : System} → Reach root others s → Step s t → Reach root others t
