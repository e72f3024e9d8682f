-- ===== src/Walk/Read/Jobs.antt =====
-- src/scanner/native.rs: the jobs that `read_dir` makes for subdirectories with a node.
use storage_harvester.Base.{
  ℕ, zero, suc, ◌+◌, ◌≤◌, ◌≡◌, refl, ap, ◌∙◌, true, false, some, List, [], ◌∷◌, ◌++◌, arith, ltb,
  if◌then◌else◌, All, map, length, get_elem?,
}
use storage_harvester.Base.Bytes.{Bytes}
use storage_harvester.Base.Result.{ok}
use storage_harvester.Walk.{push_component, child_path}
use storage_harvester.Walk.Build.{TrackedNode}
use storage_harvester.Walk.Workers.{Job}
use storage_harvester.Walk.Read.{Setup, PendingDir}
use storage_harvester.Walk.Read.Counting.{IsReady}
use storage_harvester.Walk.Read.Directory.{jobs_for, node_for}
use storage_harvester.Walk.Read.Settling.{over, IsAlone}

-- A job with a node of its own, below the node of the job that found it.
pub record HasNode (job : Job) (nodes : List TrackedNode) (j : Job) : Type 0 where
  pub tracked : j.tracked ≡ true
  pub below : job.tracked ≡ true
  pub depth : j.depth ≡ suc job.depth
  pub node :
      (n : TrackedNode) × (get_elem? nodes j.node ≡ some n)
      × (n.parent ≡ job.node)
      × (n.depth ≡ suc job.depth)
      × (j.path ≡ push_component job.path n.name)

-- The nodes of those jobs that have their own.
abbrev pub nodes_of : List Job → List ℕ
nodes_of [] = []
nodes_of (j ∷ js) = if j.tracked then j.node ∷ nodes_of js else nodes_of js

-- `k` numbers from `n` on.
abbrev pub from : ℕ → ℕ → List ℕ
from n zero = []
from n (suc k) = n ∷ from (suc n) k

pub nodes_of-alone :
    (w : Setup) (job : Job) (js more : List Job)
    → All (IsAlone w job) js
    → nodes_of (js ++ more) ≡ nodes_of more
nodes_of-alone w job [] more h = refl
nodes_of-alone w job (j ∷ js) more h = rw h.0.untracked (nodes_of-alone w job js more h.1)

pub All-both {ℓ κ} :
    {A : Type ℓ} (P : A → Type κ) (xs ys : List A) → All P xs → All P ys → All P (xs ++ ys)
All-both P [] ys h k = k
All-both P (x ∷ xs) ys h k = (h.0, All-both P xs ys h.1 k)

pub length-map :
    (job : Job) (dirs : List PendingDir) → length (map (node_for job) dirs) ≡ length dirs
length-map job [] = refl
length-map job (dir ∷ dirs) = ap suc (length-map job dirs)

pub get_elem?-past {ℓ} :
    {A : Type ℓ} (xs ys : List A) (k : ℕ) → get_elem? (xs ++ ys) (length xs + k) ≡ get_elem? ys k
get_elem?-past [] ys k = ap (get_elem? ys) (omega arith)
get_elem?-past (x ∷ xs) ys k =
    let e : length (x ∷ xs) + k ≡ suc (length xs + k) = omega arith in
    ap (get_elem? (x ∷ (xs ++ ys))) e ∙ get_elem?-past xs ys k

-- The jobs for subdirectories with the nodes from an index on.
pub record IsMade (job : Job) (nodes : List TrackedNode) (index : ℕ) (dirs : List PendingDir)
    (jobs : List Job) : Type 0 where
  pub many : length jobs ≡ length dirs
  pub paths :
      (f : Bytes → ℕ)
      → over (λ j. f j.path) jobs ≡ over (λ dir. f (push_component job.path dir.name)) dirs
  pub own : nodes_of jobs ≡ from index (length dirs)
  pub all : All (HasNode job nodes) jobs

pub jobs_for-IsMade :
    (job : Job) (nodes : List TrackedNode) (index : ℕ) (dirs : List PendingDir)
    → All (IsReady job) dirs
    → index + length dirs ≤ 4294967296
    → All (λ dir. job.tracked ≡ true) dirs
    → ((k : ℕ) → get_elem? nodes (index + k) ≡ get_elem? (map (node_for job) dirs) k)
    → (jobs : List Job) × (jobs_for job index dirs ≡ ok jobs) × IsMade job nodes index dirs jobs
unfolding jobs_for child_path
jobs_for-IsMade job nodes index [] ready h below at =
    ([], refl, record { many = refl; paths = λ f. refl; own = refl; all = tt })
jobs_for-IsMade job nodes index (dir ∷ dirs) ready h below at =
    let (rest, runs, m) =
      jobs_for-IsMade job nodes (suc index) dirs ready.1 (omega (arith, h)) below.1 (λ k.
        let e : suc index + k ≡ index + suc k = omega arith in
        ap (get_elem? nodes) e ∙ at (suc k)) in
    let here : index ≡ index + 0 = omega arith in
    let small : ltb 4294967295 index ≡ false = ground (arith, h) in
    (
      record {
        path = push_component job.path dir.name;
        depth = suc job.depth;
        node = index;
        tracked = true;
      }
          ∷ rest,
      rw (ready.0.0, small, ready.0.1) (rw runs refl),
      record {
        many = ap suc m.many;
        paths = λ f. omega (arith, m.paths f);
        own = ap (λ ns. index ∷ ns) m.own;
        all = (
          record {
            tracked = refl;
            below = below.0;
            depth = refl;
            node = (node_for job dir, ap (get_elem? nodes) here ∙ at 0, refl, refl, refl);
          },
          m.all,
        );
      },
    )
