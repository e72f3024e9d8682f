-- ===== src/Walk/Read/Placing.antt =====
-- src/scanner/native.rs: where a subdirectory that is visited ends up.
use storage_harvester.Base.{
  ℕ, suc, ◌≤◌, ◌<◌, ◌≡◌, refl, ap, sym, subst, ◌∙◌, true≢false, inl, inr, Bool, true, false, Option,
  none, [], ◌∷◌, ◌++◌, arith, if◌then◌else◌, Bool-cases, All, All-append, length, length-append,
}
use storage_harvester.Base.Int.{u64_max}
use storage_harvester.Base.Bytes.{Bytes}
use storage_harvester.Base.Result.{ok}
use storage_harvester.Tree.Tally.{add_size}
use storage_harvester.Walk.{has_nul, push_component}
use storage_harvester.Walk.Workers.{Job}
use storage_harvester.Walk.Read.{
  Setup, PendingDir, Stat, Reader, descends, keeps, count_directory, queue_untracked,
  place_directory, visit_directory,
}
use storage_harvester.Walk.Read.Counting.{total, Counted, IsReady, plus_one_id, child_path-returns}

module _ (w : Setup) (job : Job) (dir_path : Bytes) (reported : Bool) where
  abbrev pub with_job : Bytes → Reader → Reader
  with_job name r = record r {
    children =
        r.children
        ++ record {
          path = push_component job.path name;
          depth = suc job.depth;
          node = job.node;
          tracked = false;
        }
          ∷ [];
  }

  queue_untracked-returns :
      (name : Bytes) (descend : Bool) (r : Reader)
      → has_nul (push_component job.path name) ≡ false
      → queue_untracked w job dir_path reported name descend r
        ≡ ok (if descend then with_job name r else r)
  unfolding queue_untracked
  queue_untracked-returns name true r h = rw (child_path-returns job.path name h) refl
  queue_untracked-returns name false r h = refl

  abbrev pub with_pending : PendingDir → Reader → Reader
  with_pending dir r = record r { tracked = suc r.tracked; pending = r.pending ++ dir ∷ [] }

  -- Where a subdirectory ends up.
  pub data Placed (r : Reader) (name : Bytes) (descend : Bool) (next : Reader) : Type 0 where
    gets_node :
        (dir : PendingDir)
        → keeps w job dir_path reported (suc job.depth) r.tracked ≡ true
        → dir.descend ≡ descend
        → dir.name ≡ name
        → next ≡ with_pending dir r
        → Placed r name descend next
    goes_on :
        (tracked : ℕ)
        → r.tracked ≤ tracked
        → next ≡ (
            if descend
            then with_job name (record r { tracked = tracked })
            else record r { tracked = tracked })
        → Placed r name descend next

  pub place_directory-Placed :
      (name : Bytes) (s : Stat) (handle : Option Bytes) (descend : Bool) (r : Reader)
      → has_nul (push_component job.path name) ≡ false
      → (next : Reader) × (place_directory w job dir_path reported name s handle descend r
          ≡ ok next)
        × Placed r name descend next
  unfolding place_directory keeps queue_untracked
  place_directory-Placed name s handle descend r h = elim (Bool-cases job.tracked) [
    | inl e ↦ elim (Bool-cases (keeps w job dir_path reported (suc job.depth) r.tracked)) [
      | inl k ↦ (
        _,
        rw (e, k) refl,
        gets_node
            (record {
              name = name;
              stat = s;
              handle = if w.for_fanotify then handle else none;
              descend = descend;
            })
            k refl refl refl,
      )
      | inr k ↦ (
        _,
        rw (e, k) (queue_untracked-returns name descend (record r { tracked = suc r.tracked }) h),
        goes_on (suc r.tracked) (omega arith) refl,
      )
    ]
    | inr e ↦
        (_, rw e (queue_untracked-returns name descend r h), goes_on r.tracked (omega arith) refl)
  ]

  keeps-lt :
      (depth reserved : ℕ)
      → keeps w job dir_path reported depth reserved ≡ true
      → w.target.report_depth < depth
      → reserved < w.cap
  unfolding keeps
  keeps-lt depth reserved k lt = ground arith

  -- The count goes up by one, and the subdirectory is put where it belongs.
  Placed-Counted :
      (r counted next : Reader) (name : Bytes) (descend : Bool)
      → total counted ≡ suc (total r)
      → counted.sums.dirs ≡ suc r.sums.dirs
      → counted.pending ≡ r.pending
      → counted.children ≡ r.children
      → counted.tracked ≡ r.tracked
      → descend ≡ descends w.target.max_depth (suc job.depth)
      → has_nul (push_component job.path name) ≡ false
      → Placed counted name descend next
      → Counted w job dir_path reported r next
  Placed-Counted r counted next name descend once dirs pending children tracked how clean
        (gets_node dir k goes named is) =
      subst (Counted w job dir_path reported r) (sym is) (record {
        once = once;
        placed = λ d. omega (
          arith,
          dirs,
          ap length pending,
          ap length children,
          length-append counted.pending (dir ∷ []),
        );
        slots = λ d. omega (
          arith,
          ap length pending,
          length-append counted.pending (dir ∷ []),
          keeps-lt (suc job.depth) counted.tracked k d,
          tracked,
        );
        few = omega (arith, ap length pending, length-append counted.pending (dir ∷ []));
        onward = λ d all.
            All-append (IsReady job) counted.pending dir
              (subst (All (IsReady job)) (sym pending) all)
              (goes ∙ (how ∙ d), ap (λ n. has_nul (push_component job.path n)) named ∙ clean);
      })
  Placed-Counted r counted next name true once dirs pending children tracked how clean
        (goes_on t le is) =
      subst (Counted w job dir_path reported r) (sym is) (record {
        once = once;
        placed = λ d. omega (
          arith,
          dirs,
          ap length pending,
          ap length children,
          length-append counted.children (
              record {
                path = push_component job.path name;
                depth = suc job.depth;
                node = job.node;
                tracked = false;
              }
              ∷ []),
        );
        slots = λ d. omega (arith, ap length pending, tracked, le);
        few = omega (arith, ap length pending);
        onward = λ d all. subst (All (IsReady job)) (sym pending) all;
      })
  Placed-Counted r counted next name false once dirs pending children tracked how clean
        (goes_on t le is) =
      subst (Counted w job dir_path reported r) (sym is) (record {
        once = once;
        placed = λ d. absurd (true≢false d (sym how));
        slots = λ d. omega (arith, ap length pending, tracked, le);
        few = omega (arith, ap length pending);
        onward = λ d all. subst (All (IsReady job)) (sym pending) all;
      })

  pub visit_directory-Counted :
      (name : Bytes) (s : Stat) (handle : Option Bytes) (r : Reader)
      → has_nul (push_component job.path name) ≡ false
      → total r < u64_max
      → (next : Reader) × (visit_directory w job dir_path reported name s handle r ≡ ok next)
        × Counted w job dir_path reported r next
  unfolding visit_directory count_directory add_size
  visit_directory-Counted name s handle r clean h =
      let descend = descends w.target.max_depth (suc job.depth) in
      let counted = count_directory w job dir_path reported s descend r in
      let (next, runs, placed) = place_directory-Placed name s handle descend counted clean in
      (
        next,
        runs,
        Placed-Counted r counted next name descend
            (omega (arith, h, plus_one_id r.sums.dirs (omega (arith, h))))
            (plus_one_id r.sums.dirs (omega (arith, h))) refl refl refl refl clean placed,
      )
