-- ===== src/Walk/Read/Subdirs.antt =====
-- src/scanner/native.rs: a subdirectory that is visited is put among what is to be read.
use storage_harvester.Base.{
  ℕ, suc, ◌<◌, ◌≡◌, refl, inl, inr, true≢false, Bool, true, false, Option, none, [], ◌∷◌, ◌++◌,
  arith, if◌then◌else◌, Bool-cases, All-append,
}
use storage_harvester.Base.Bytes.{Bytes}
use storage_harvester.Base.Result.{Result, ok}
use storage_harvester.Walk.{has_nul, push_component}
use storage_harvester.Walk.Workers.{Job}
use storage_harvester.Walk.Read.{
  Setup, PendingDir, Stat, Reader, descends, keeps, count_directory, place_directory,
  visit_directory,
}
use storage_harvester.Walk.Read.Settling.{
  over-append, pending_path, Settled, Settled-Still, queue_untracked-Settled,
}

module _ (w : Setup) (job : Job) (dir_path : Bytes) (reported : Bool) where
  -- What returns a reader with the subdirectories of the weights `d` put among what is to be read.
  abbrev pub Settles : ((Bytes → ℕ) → ℕ) → Reader → Result Reader → Type 0
  Settles d r out = (next : Reader) × (out ≡ ok next) × Settled w job d r next

  not_kept :
      (reserved : ℕ)
      → keeps w job dir_path reported (suc job.depth) reserved ≡ false
      → w.target.report_depth < suc job.depth
  unfolding keeps
  not_kept reserved k = ground arith

  place_directory-Settled :
      (name : Bytes) (s : Stat) (handle : Option Bytes) (r : Reader)
      → has_nul (push_component job.path name) ≡ false
      → Settles
          (λ f. f (push_component job.path name))
          r
          (place_directory w job dir_path reported name s handle true r)
  unfolding place_directory
  place_directory-Settled name s handle r clean = elim (Bool-cases job.tracked) [
    | inl e ↦ elim (Bool-cases (keeps w job dir_path reported (suc job.depth) r.tracked)) [
      | inl k ↦
          let dir : PendingDir = record {
            name = name;
            stat = s;
            handle = if w.for_fanotify then handle else none;
            descend = true;
          } in
          (
            record r { tracked = suc r.tracked; pending = r.pending ++ dir ∷ [] },
            (simp e (simp k refl)),
            record {
              paths = λ f.
                  omega (arith, over-append (λ d. f (pending_path w job d)) r.pending (dir ∷ []));
              alone = λ all. all;
              held = λ all. All-append (λ d. job.tracked ≡ true) r.pending dir all e;
            },
          )
      | inr k ↦
          let asked : Reader = record r { tracked = suc r.tracked } in
          let (next, runs, t) =
            queue_untracked-Settled w job dir_path reported name asked clean
              (λ tracked. not_kept r.tracked k) in
          (
            next,
            (simp e (simp k runs)),
            Settled-Still w job (λ f. f (push_component job.path name)) r asked next
                (record { pending = refl; children = refl }) t,
          )
    ]
    | inr e ↦
        let (next, runs, t) =
          queue_untracked-Settled w job dir_path reported name r clean
            (λ tracked. absurd (true≢false tracked e)) in
        (next, simp e runs, t)
  ]

  pub visit_directory-Settled :
      (name : Bytes) (s : Stat) (handle : Option Bytes) (r : Reader)
      → descends w.target.max_depth (suc job.depth) ≡ true
      → has_nul (push_component job.path name) ≡ false
      → Settles
          (λ f. f (push_component job.path name))
          r
          (visit_directory w job dir_path reported name s handle r)
  unfolding visit_directory count_directory
  visit_directory-Settled name s handle r d clean =
      let counted = count_directory w job dir_path reported s true r in
      let (next, runs, t) = place_directory-Settled name s handle counted clean in
      (
        next,
        rw d runs,
        Settled-Still w job (λ f. f (push_component job.path name)) r counted next
            (record { pending = refl; children = refl }) t,
      )
