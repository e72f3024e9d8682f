-- ===== src/Walk/Read/Settling.antt =====
-- src/scanner/native.rs: which entries are subdirectories to read, and where a visit puts one.
use storage_harvester.Base.{
  ℕ, suc, ◌+◌, ◌<◌, ◌≡◌, refl, ap, sym, subst, ◌∙◌, Bool, true, false, not, ◌&&◌, List, [], ◌∷◌,
  ◌++◌, arith, ◌==◌, if◌then◌else◌, All, All-append,
}
use storage_harvester.Base.Bytes.{Bytes}
use storage_harvester.Base.Result.{ok}
use storage_harvester.Walk.{has_nul, push_component}
use storage_harvester.Walk.Workers.{Job}
use storage_harvester.Walk.Read.{
  Setup, PendingDir, Stat, StatResult, stat, error, Entry, Kind, Reader, is_dot, queue_untracked,
  visit_file, count_entry, list_entry, is_shared, entry_index,
}
use storage_harvester.Walk.Read.Counting.{
  child_path-returns, with_size, list_entry-Same, keep_file-Same,
}

-- The sum of a weight over a list.
abbrev pub over {ℓ} : {A : Type ℓ} → (A → ℕ) → List A → ℕ
over f [] = 0
over f (x ∷ xs) = f x + over f xs

pub over-append {ℓ} :
    {A : Type ℓ} (f : A → ℕ) (xs ys : List A) → over f (xs ++ ys) ≡ over f xs + over f ys
over-append f [] ys = omega arith
over-append f (x ∷ xs) ys = omega (arith, over-append f xs ys)

abbrev pub is_directory : Kind → Bool
is_directory Kind.directory = true
is_directory Kind.file = false
is_directory Kind.symlink = false
is_directory Kind.other = false

-- What `stat` says is a directory of a device that the walk does not leave out.
abbrev pub is_directory_here : Setup → StatResult → Bool
is_directory_here w (error code) = false
is_directory_here w (stat s) =
    is_directory s.kind && not (w.target.no_cross_filesystem && not (s.dev == w.root_dev))

-- An entry that is a subdirectory to read: not `.` or `..`, not left out by a pattern, a directory.
abbrev pub is_subdir : Setup → Bytes → Entry → Bool
is_subdir w dir_path e =
    not (is_dot e.name)
    && not (w.excluding && w.exclude (push_component dir_path e.name))
    && is_directory_here w e.answer

module _ (w : Setup) (job : Job) where
  -- The weight of a path, for a subdirectory to read.
  abbrev pub if_subdir : Bytes → (Bytes → ℕ) → Entry → ℕ
  if_subdir dir_path f e = if is_subdir w dir_path e then f (push_component job.path e.name) else 0

  abbrev pub pending_path : PendingDir → Bytes
  pending_path dir = push_component job.path dir.name

  -- The paths that are to be read, each with its weight.
  abbrev pub bound : (Bytes → ℕ) → Reader → ℕ
  bound f r = over (λ j. f j.path) r.children + over (λ dir. f (pending_path dir)) r.pending

  -- A job that counts into the node of this one: its own is not tracked, or it is beyond the report
  -- depth, where there may be no slot for it.
  pub record IsAlone (j : Job) : Type 0 where
    pub untracked : j.tracked ≡ false
    pub depth : j.depth ≡ suc job.depth
    pub node : j.node ≡ job.node
    pub reason : job.tracked ≡ true → w.target.report_depth < suc job.depth

  -- What visits put among what is to be read: subdirectories with the weights `d`, and no other.
  pub record Settled (d : (Bytes → ℕ) → ℕ) (r next : Reader) : Type 0 where
    pub paths : (f : Bytes → ℕ) → bound f next ≡ bound f r + d f
    pub alone : All IsAlone r.children → All IsAlone next.children
    pub held :
        All (λ dir. job.tracked ≡ true) r.pending → All (λ dir. job.tracked ≡ true) next.pending

  pub Settled-same :
      (d d' : (Bytes → ℕ) → ℕ) (r next : Reader)
      → ((f : Bytes → ℕ) → d f ≡ d' f)
      → Settled d r next
      → Settled d' r next
  Settled-same d d' r next same t = record {
    paths = λ f. omega (arith, t.paths f, same f);
    alone = t.alone;
    held = t.held;
  }

  -- What is to be read stays as it is.
  pub record Still (r next : Reader) : Type 0 where
    pub pending : next.pending ≡ r.pending
    pub children : next.children ≡ r.children

  pub Still-Settled : (r next : Reader) → Still r next → Settled (λ f. 0) r next
  Still-Settled r next s = record {
    paths = λ f. omega (
      arith,
      ap (over (λ j. f j.path)) s.children,
      ap (over (λ dir. f (pending_path dir))) s.pending,
    );
    alone = subst (All IsAlone) (sym s.children);
    held = subst (All (λ dir. job.tracked ≡ true)) (sym s.pending);
  }

  pub Settled-Still :
      (d : (Bytes → ℕ) → ℕ) (r before next : Reader)
      → Still r before
      → Settled d before next
      → Settled d r next
  Settled-Still d r before next s t = record {
    paths = λ f. omega (
      arith,
      t.paths f,
      ap (over (λ j. f j.path)) s.children,
      ap (over (λ dir. f (pending_path dir))) s.pending,
    );
    alone = λ all. t.alone (subst (All IsAlone) (sym s.children) all);
    held = λ all. t.held (subst (All (λ dir. job.tracked ≡ true)) (sym s.pending) all);
  }

  module _ (dir_path : Bytes) (reported : Bool) where
    count_entry-Still :
        (kind : Kind) (blocks apparent : ℕ) (r : Reader)
        → Still r (
            with_size w job dir_path reported
              (count_entry w job dir_path reported kind r)
              blocks
              apparent)
    unfolding count_entry
    count_entry-Still Kind.file blocks apparent r = record { pending = refl; children = refl }
    count_entry-Still Kind.symlink blocks apparent r = record { pending = refl; children = refl }
    count_entry-Still Kind.directory blocks apparent r = record { pending = refl; children = refl }
    count_entry-Still Kind.other blocks apparent r = record { pending = refl; children = refl }

    pub visit_file-Still :
        (name : Bytes) (s : Stat) (r : Reader)
        → Still r (visit_file w job dir_path reported name s r)
    unfolding visit_file
    visit_file-Still name s r =
        let blocks = if is_shared s then 0 else s.blocks in
        let apparent = if is_shared s then 0 else s.size in
        let summed =
          with_size w job dir_path reported (count_entry w job dir_path reported s.kind r) blocks
            apparent in
        let listed = list_entry w job dir_path reported name s.kind blocks apparent summed in
        let counts = count_entry-Still s.kind blocks apparent r in
        let lists = list_entry-Same w job dir_path reported name s.kind blocks apparent summed in
        let keeps =
          keep_file-Same w job dir_path reported name s (entry_index w job dir_path reported summed)
            listed in
        record {
          pending = keeps.pending ∙ (lists.pending ∙ counts.pending);
          children = keeps.children ∙ (lists.children ∙ counts.children);
        }

    -- Next to be read without a node of its own.
    abbrev alone_job : Bytes → Job
    alone_job name = record {
      path = push_component job.path name;
      depth = suc job.depth;
      node = job.node;
      tracked = false;
    }

    pub queue_untracked-Settled :
        (name : Bytes) (r : Reader)
        → has_nul (push_component job.path name) ≡ false
        → (job.tracked ≡ true → w.target.report_depth < suc job.depth)
        → (next : Reader) × (queue_untracked w job dir_path reported name true r ≡ ok next)
          × Settled (λ f. f (push_component job.path name)) r next
    unfolding queue_untracked
    queue_untracked-Settled name r clean reason = (
      record r { children = r.children ++ alone_job name ∷ [] },
      rw (child_path-returns job.path name clean) refl,
      record {
        paths = λ f. omega (arith, over-append (λ j. f j.path) r.children (alone_job name ∷ []));
        alone = λ all.
            All-append IsAlone r.children (alone_job name) all
              (record { untracked = refl; depth = refl; node = refl; reason = reason });
        held = λ all. all;
      },
    )
