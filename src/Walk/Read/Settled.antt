-- ===== src/Walk/Read/Settled.antt =====
-- src/scanner/native.rs: the loop of `read_dir` puts every subdirectory among what is to be read.
use storage_harvester.Base.{
  ℕ, suc, ◌+◌, ◌≡◌, refl, max, inl, inr, ◌∙◌, Bool, true, false, not, ◌&&◌, Option, some, List, [],
  ◌∷◌, arith, ◌==◌, if◌then◌else◌, Bool-cases, All,
}
use storage_harvester.Base.Bytes.{Bytes}
use storage_harvester.Base.Result.{ok}
use storage_harvester.Walk.{has_nul, push_component}
use storage_harvester.Walk.Build.{max_ℤ}
use storage_harvester.Walk.Workers.{Job}
use storage_harvester.Walk.Read.{
  Setup, Stat, StatResult, stat, error, Entry, Kind, Reader, is_dot, descends, visit_kind,
  visit_stat, visit_answer, visit, visit_all, fails, excluded, cross_device,
}
use storage_harvester.Walk.Read.Looped.{IsPlain, visit_all-dot, visit_all-next}
use storage_harvester.Walk.Read.Settling.{
  over, is_directory, is_directory_here, if_subdir, Settled, Settled-same, Still, Still-Settled,
  Settled-Still, visit_file-Still,
}
use storage_harvester.Walk.{is_permission_denied}
use storage_harvester.Walk.Read.Subdirs.{Settles, visit_directory-Settled}

module _ (w : Setup) (job : Job) (dir_path : Bytes) (reported : Bool) where
  visit_kind-Settled :
      (kind : Kind) (name : Bytes) (s : Stat) (handle : Option Bytes) (r : Reader)
      → descends w.target.max_depth (suc job.depth) ≡ true
      → has_nul (push_component job.path name) ≡ false
      → Settles w job dir_path reported
          (λ f. if is_directory kind then f (push_component job.path name) else 0)
          r
          (visit_kind w job dir_path reported kind name s handle r)
  unfolding visit_kind
  visit_kind-Settled Kind.directory name s handle r d clean =
      visit_directory-Settled w job dir_path reported name s handle r d clean
  visit_kind-Settled Kind.file name s handle r d clean =
      (_, refl, Still-Settled w job r _ (visit_file-Still w job dir_path reported name s r))
  visit_kind-Settled Kind.symlink name s handle r d clean =
      (_, refl, Still-Settled w job r _ (visit_file-Still w job dir_path reported name s r))
  visit_kind-Settled Kind.other name s handle r d clean =
      (_, refl, Still-Settled w job r _ (visit_file-Still w job dir_path reported name s r))

  fails-Still :
      (code : Option ℕ) (r : Reader) → Still w job r (fails w job dir_path reported code r)
  unfolding fails
  fails-Still code r = elim (Bool-cases (is_permission_denied code)) [
    | inl e ↦ rw e (record { pending = refl; children = refl })
    | inr e ↦ rw e (record { pending = refl; children = refl })
  ]

  visit_answer-Settled :
      (answer : StatResult) (name : Bytes) (handle : Option Bytes) (r : Reader)
      → descends w.target.max_depth (suc job.depth) ≡ true
      → has_nul (push_component job.path name) ≡ false
      → Settles w job dir_path reported
          (λ f. if is_directory_here w answer then f (push_component job.path name) else 0)
          r
          (visit_answer w job dir_path reported answer name handle r)
  unfolding visit_answer visit_stat
  visit_answer-Settled (error code) name handle r d clean =
      (_, refl, Still-Settled w job r _ (fails-Still code r))
  visit_answer-Settled (stat s) name handle r d clean =
      elim (Bool-cases (w.target.no_cross_filesystem && not (s.dev == w.root_dev))) [
        | inl e ↦ (
          cross_device r,
          rw e refl,
          Settled-same w job (λ f. 0) _ r (cross_device r) (λ f. ground (arith, e))
              (Still-Settled w job r (cross_device r) (record { pending = refl; children = refl })),
        )
        | inr e ↦
            let before : Reader = record r {
              counts = record r.counts {
                max_observed_depth = max r.counts.max_observed_depth (suc job.depth);
              };
              newest = max_ℤ r.newest s.mtime;
            } in
            let (next, runs, t) = visit_kind-Settled s.kind name s handle before d clean in
            (
              next,
              rw e runs,
              Settled-same w job _ _ r next (λ f. ground (arith, e))
                  (Settled-Still w job _ r before next (record { pending = refl; children = refl })
                    t),
            )
      ]

  visit-Settled :
      (e : Entry) (r : Reader)
      → is_dot e.name ≡ false
      → descends w.target.max_depth (suc job.depth) ≡ true
      → has_nul (push_component job.path e.name) ≡ false
      → Settles w job dir_path reported
          (λ f. if_subdir w job dir_path f e)
          r
          (visit w job dir_path reported e r)
  unfolding visit
  visit-Settled e r no_dot d clean =
      elim (Bool-cases (w.excluding && w.exclude (push_component dir_path e.name))) [
        | inl x ↦ (
          excluded r,
          rw x refl,
          Settled-same w job (λ f. 0) _ r (excluded r) (λ f. ground (arith, x, no_dot))
              (Still-Settled w job r (excluded r) (record { pending = refl; children = refl })),
        )
        | inr x ↦
            let before : Reader = record r { tracked = r.tracked + e.asked } in
            let (next, runs, t) = visit_answer-Settled e.answer e.name e.handle before d clean in
            (
              next,
              rw x runs,
              Settled-same w job _ _ r next (λ f. ground (arith, x, no_dot))
                  (Settled-Still w job _ r before next (record { pending = refl; children = refl })
                    t),
            )
      ]

  pub visit_all-Settled :
      (es : List Entry) (r : Reader)
      → descends w.target.max_depth (suc job.depth) ≡ true
      → All (IsPlain job) es
      → (next : Reader) × (visit_all w job dir_path reported es r ≡ ok (some next))
        × Settled w job (λ f. over (if_subdir w job dir_path f) es) r next
  unfolding visit_all
  visit_all-Settled [] r d plain =
      (r, refl, Still-Settled w job r r (record { pending = refl; children = refl }))
  visit_all-Settled (e ∷ es) r d plain = elim (Bool-cases (is_dot e.name)) [
    | inl dot ↦
        let (next, runs, t) = visit_all-Settled es r d plain.1 in
        (
          next,
          visit_all-dot w job dir_path reported e es r plain.0.0 dot ∙ runs,
          Settled-same w job _ _ r next (λ f. ground (arith, dot)) t,
        )
    | inr no_dot ↦
        let (middle, visits, c) = visit-Settled e r no_dot d plain.0.1 in
        let (next, runs, t) = visit_all-Settled es middle d plain.1 in
        (
          next,
          visit_all-next w job dir_path reported e es r middle plain.0.0 no_dot visits ∙ runs,
          record {
            paths = λ f. omega (arith, c.paths f, t.paths f);
            alone = λ all. t.alone (c.alone all);
            held = λ all. t.held (c.held all);
          },
        )
  ]
