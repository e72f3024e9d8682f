-- ===== src/Walk/Read/Entries.antt =====
-- src/scanner/native.rs: `read_dir` counts every entry once, and no subdirectory is lost.
use storage_harvester.Base.{
  suc, ◌+◌, ◌<◌, ◌≡◌, refl, max, inl, inr, Bool, false, not, ◌&&◌, Option, arith, ◌==◌, Bool-cases,
}
use storage_harvester.Base.Int.{u64_max}
use storage_harvester.Base.Bytes.{Bytes}
use storage_harvester.Base.Result.{Result, ok}
use storage_harvester.Walk.{has_nul, push_component}
use storage_harvester.Walk.Build.{max_ℤ}
use storage_harvester.Walk.Workers.{Job}
use storage_harvester.Walk.Read.{
  Setup, Stat, StatResult, stat, error, Entry, Reader, Kind, cross_device, excluded, visit_stat,
  visit_answer, visit_kind, visit,
}
use storage_harvester.Walk.Read.Counting.{
  total, Counted, up_one, prepared-Counted, visit_file-Counted, fails-Counted, plus_one_id,
}
use storage_harvester.Walk.Read.Placing.{visit_directory-Counted}

module _ (w : Setup) (job : Job) (dir_path : Bytes) (reported : Bool) where
  -- A visit returns, and counts its entry once.
  abbrev Visits : Reader → Result Reader → Type 0
  Visits r out = (next : Reader) × (out ≡ ok next) × Counted w job dir_path reported r next

  visit_kind-Counted :
      (kind : Kind) (name : Bytes) (s : Stat) (handle : Option Bytes) (r : Reader)
      → has_nul (push_component job.path name) ≡ false
      → total r < u64_max
      → Visits r (visit_kind w job dir_path reported kind name s handle r)
  unfolding visit_kind
  visit_kind-Counted Kind.directory name s handle r clean h =
      visit_directory-Counted w job dir_path reported name s handle r clean h
  visit_kind-Counted Kind.file name s handle r clean h =
      (_, refl, visit_file-Counted w job dir_path reported name s r h)
  visit_kind-Counted Kind.symlink name s handle r clean h =
      (_, refl, visit_file-Counted w job dir_path reported name s r h)
  visit_kind-Counted Kind.other name s handle r clean h =
      (_, refl, visit_file-Counted w job dir_path reported name s r h)

  visit_stat-Counted :
      (name : Bytes) (s : Stat) (handle : Option Bytes) (r : Reader)
      → has_nul (push_component job.path name) ≡ false
      → total r < u64_max
      → Visits r (visit_stat w job dir_path reported name s handle r)
  unfolding visit_stat
  visit_stat-Counted name s handle r clean h =
      elim (Bool-cases (w.target.no_cross_filesystem && not (s.dev == w.root_dev))) [
        | inl e ↦ (
          cross_device r,
          rw e refl,
          up_one w job dir_path reported r (cross_device r)
              (omega (arith, h, plus_one_id r.counts.skipped_cross_device (omega (arith, h)))) refl
              refl refl (omega arith),
        )
        | inr e ↦
            let before : Reader = record r {
              counts = record r.counts {
                max_observed_depth = max r.counts.max_observed_depth (suc job.depth);
              };
              newest = max_ℤ r.newest s.mtime;
            } in
            let (next, runs, c) = visit_kind-Counted s.kind name s handle before clean h in
            (
              next,
              rw e runs,
              prepared-Counted w job dir_path reported r before next refl refl refl refl
                  (omega arith) c,
            )
      ]

  visit_answer-Counted :
      (answer : StatResult) (name : Bytes) (handle : Option Bytes) (r : Reader)
      → has_nul (push_component job.path name) ≡ false
      → total r < u64_max
      → Visits r (visit_answer w job dir_path reported answer name handle r)
  unfolding visit_answer
  visit_answer-Counted (stat s) name handle r clean h = visit_stat-Counted name s handle r clean h
  visit_answer-Counted (error code) name handle r clean h =
      (_, refl, fails-Counted w job dir_path reported code r h)

  pub visit-Counted :
      (e : Entry) (r : Reader)
      → has_nul (push_component job.path e.name) ≡ false
      → total r < u64_max
      → (next : Reader) × (visit w job dir_path reported e r ≡ ok next)
        × Counted w job dir_path reported r next
  unfolding visit
  visit-Counted e r clean h =
      elim (Bool-cases (w.excluding && w.exclude (push_component dir_path e.name))) [
        | inl x ↦ (
          excluded r,
          rw x refl,
          up_one w job dir_path reported r (excluded r)
              (omega (arith, h, plus_one_id r.counts.skipped_excluded (omega (arith, h)))) refl refl
              refl (omega arith),
        )
        | inr x ↦
            let before : Reader = record r { tracked = r.tracked + e.asked } in
            let (next, runs, c) = visit_answer-Counted e.answer e.name e.handle before clean h in
            (
              next,
              rw x runs,
              prepared-Counted w job dir_path reported r before next refl refl refl refl
                  (omega arith) c,
            )
      ]
