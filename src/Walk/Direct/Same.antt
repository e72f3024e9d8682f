-- ===== src/Walk/Direct/Same.antt =====
-- src/scanner/native.rs: `read_direct` counts a directory's entries as the walk does.
use mathlib.Core.Path.{ap₂}
use storage_harvester.Base.{
  ℕ, suc, ◌+◌, ◌≤◌, ◌<◌, ◌≡◌, refl, ap, sym, ◌∙◌, subst, inl, inr, Bool, true, false, not, ◌&&◌,
  Option, none, some, List, [], ◌∷◌, ◌==◌, arith, if◌then◌else◌, Bool-cases, All, length, max,
}
use storage_harvester.Base.Int.{u64_max}
use storage_harvester.Base.Bytes.{Bytes}
use storage_harvester.Base.Result.{Result, ok}
use storage_harvester.Tree.Tally.{Tally, empty, add_size}
use storage_harvester.Walk.{push_component, has_nul, is_permission_denied, is_reported}
use storage_harvester.Walk.Build.{max_ℤ}
use storage_harvester.Walk.Workers.{Job}
use storage_harvester.Walk.Read.{
  Setup, Stat, StatResult, stat, error, Entry, Kind, Reader, is_dot, is_shared, plus_one, visit,
  visit_all, visit_answer, visit_stat, visit_kind, visit_file, visit_directory, count_entry,
  count_directory, list_entry, fails, entry_index, descends, cross_device, excluded,
}
use storage_harvester.Walk.Read.Counting.{count_of, with_size, list_entry-Same, keep_file-Same}
use storage_harvester.Walk.Read.Placing.{gets_node, goes_on, Placed, place_directory-Placed}
use storage_harvester.Walk.Read.Directory.{Gathered, reads, holds, reader_of, shown_path, read_dir}
use storage_harvester.Walk.Read.Looped.{named, IsPlain, visit_all-dot, visit_all-next}
use storage_harvester.Walk.Read.Whole.{Adds, read_dir-IsRead}
use storage_harvester.Walk.Direct.{
  Listing, nothing_listed, list_answer, listed, count_kind, list_directory, list_file, list_kind,
  list_stat, list_one, list_all, read_direct, sort_subdirs,
}

add_size_zero : (t : Tally) → t.blocks ≤ u64_max → t.apparent ≤ u64_max → add_size t 0 0 ≡ t
unfolding add_size
add_size_zero t b a =
    ap₂ (λ x y. record t { blocks = x; apparent = y }) (omega (arith, b)) (omega (arith, a))

add_size-le :
    (t : Tally) (blocks apparent : ℕ)
    → ((add_size t blocks apparent).blocks ≤ u64_max)
      × ((add_size t blocks apparent).apparent ≤ u64_max)
unfolding add_size
add_size-le t blocks apparent = (omega arith, omega arith)

module _ (w : Setup) (job : Job) (dir_path : Bytes) (reported record_plain : Bool) where
  -- The listing has counted what the reader has, in counters that are `u64`.
  pub record Agree (r : Reader) (l : Listing) : Type 0 where
    pub sums : r.sums ≡ l.direct
    pub blocks : l.direct.blocks ≤ u64_max
    pub apparent : l.direct.apparent ≤ u64_max

  count_entry-sums :
      (kind : Kind) (r : Reader)
      → (count_entry w job dir_path reported kind r).sums ≡ count_kind kind r.sums
  unfolding count_entry
  count_entry-sums Kind.file r = refl
  count_entry-sums Kind.symlink r = refl
  count_entry-sums Kind.other r = refl
  count_entry-sums Kind.directory r = refl

  count_kind-sizes :
      (kind : Kind) (t : Tally)
      → ((count_kind kind t).blocks ≡ t.blocks) × ((count_kind kind t).apparent ≡ t.apparent)
  count_kind-sizes Kind.file t = (refl, refl)
  count_kind-sizes Kind.symlink t = (refl, refl)
  count_kind-sizes Kind.other t = (refl, refl)
  count_kind-sizes Kind.directory t = (refl, refl)

  visit_file-sums :
      (name : Bytes) (s : Stat) (r : Reader)
      → (visit_file w job dir_path reported name s r).sums
        ≡ add_size
            (count_kind s.kind r.sums)
            (if is_shared s then 0 else s.blocks)
            (if is_shared s then 0 else s.size)
  unfolding visit_file
  visit_file-sums name s r =
      let blocks = if is_shared s then 0 else s.blocks in
      let apparent = if is_shared s then 0 else s.size in
      let summed =
        with_size w job dir_path reported (count_entry w job dir_path reported s.kind r) blocks
          apparent in
      let listed_entry = list_entry w job dir_path reported name s.kind blocks apparent summed in
      (keep_file-Same w job dir_path reported name s (entry_index w job dir_path reported summed)
        listed_entry).sums
      ∙ ((list_entry-Same w job dir_path reported name s.kind blocks apparent summed).sums
          ∙ ap (λ t. add_size t blocks apparent) (count_entry-sums s.kind r))

  list_file-direct :
      (s : Stat) (l : Listing)
      → l.direct.blocks ≤ u64_max
      → l.direct.apparent ≤ u64_max
      → (list_file w record_plain dir_path s l).direct
        ≡ add_size
            (count_kind s.kind l.direct)
            (if is_shared s then 0 else s.blocks)
            (if is_shared s then 0 else s.size)
  unfolding list_file
  list_file-direct s l b a = elim (Bool-cases (is_shared s)) [
    | inl e ↦
        let (blocks, apparent) = count_kind-sizes s.kind l.direct in
        rw e (
          sym (
            add_size_zero (count_kind s.kind l.direct) (omega (arith, b, blocks))
              (omega (arith, a, apparent))))
    | inr e ↦ rw e refl
  ]

  file-Agree :
      (name : Bytes) (s : Stat) (r : Reader) (l : Listing)
      → Agree r l
      → Agree (visit_file w job dir_path reported name s r) (list_file w record_plain dir_path s l)
  file-Agree name s r l g =
      let same = list_file-direct s l g.blocks g.apparent in
      record {
        sums =
            visit_file-sums name s r
            ∙ (ap
                  (λ t.
                    add_size (count_kind s.kind t) (if is_shared s then 0 else s.blocks)
                      (if is_shared s then 0 else s.size))
                  g.sums
                ∙ sym same);
        blocks = omega (
          arith,
          ap (λ t. t.blocks) same,
          add_size-le (count_kind s.kind l.direct) (if is_shared s then 0 else s.blocks)
              (if is_shared s then 0 else s.size),
        );
        apparent = omega (
          arith,
          ap (λ t. t.apparent) same,
          add_size-le (count_kind s.kind l.direct) (if is_shared s then 0 else s.blocks)
              (if is_shared s then 0 else s.size),
        );
      }

  -- Where a subdirectory is put changes no sum.
  Placed-sums :
      (r next : Reader) (name : Bytes) (descend : Bool)
      → Placed w job dir_path reported r name descend next
      → next.sums ≡ r.sums
  Placed-sums r next name descend (gets_node dir k goes named is) = ap (λ x. x.sums) is
  Placed-sums r next name true (goes_on tracked le is) = ap (λ x. x.sums) is
  Placed-sums r next name false (goes_on tracked le is) = ap (λ x. x.sums) is

  abbrev Visits : Reader → Listing → Result Reader → Type 0
  Visits r l out = (next : Reader) × (out ≡ ok next) × Agree next l

  directory-Agree :
      (name : Bytes) (s : Stat) (handle : Option Bytes) (r : Reader) (l : Listing)
      → has_nul (push_component job.path name) ≡ false
      → Agree r l
      → Visits r
          (list_directory w record_plain dir_path name s l)
          (visit_directory w job dir_path reported name s handle r)
  unfolding visit_directory list_directory count_directory
  directory-Agree name s handle r l clean g =
      let descend = descends w.target.max_depth (suc job.depth) in
      let counted = count_directory w job dir_path reported s descend r in
      let (next, runs, placed) =
        place_directory-Placed w job dir_path reported name s handle descend counted clean in
      (
        next,
        runs,
        record {
          sums =
              Placed-sums counted next name descend placed
              ∙ ap (λ t. add_size (record t { dirs = plus_one t.dirs }) s.blocks s.size) g.sums;
          blocks =
              (add_size-le (record l.direct { dirs = plus_one l.direct.dirs }) s.blocks s.size).0;
          apparent =
              (add_size-le (record l.direct { dirs = plus_one l.direct.dirs }) s.blocks s.size).1;
        },
      )

  kind-Agree :
      (kind : Kind) (name : Bytes) (s : Stat) (handle : Option Bytes) (r : Reader) (l : Listing)
      → has_nul (push_component job.path name) ≡ false
      → Agree r l
      → Visits r
          (list_kind w record_plain dir_path kind name s l)
          (visit_kind w job dir_path reported kind name s handle r)
  unfolding visit_kind list_kind
  kind-Agree Kind.directory name s handle r l clean g = directory-Agree name s handle r l clean g
  kind-Agree Kind.file name s handle r l clean g = (_, refl, file-Agree name s r l g)
  kind-Agree Kind.symlink name s handle r l clean g = (_, refl, file-Agree name s r l g)
  kind-Agree Kind.other name s handle r l clean g = (_, refl, file-Agree name s r l g)

  -- The tests before the entry's kind are the same.
  stat-Agree :
      (name : Bytes) (s : Stat) (handle : Option Bytes) (r : Reader) (l : Listing)
      → has_nul (push_component job.path name) ≡ false
      → Agree r l
      → Visits r
          (list_stat w record_plain dir_path name s l)
          (visit_stat w job dir_path reported name s handle r)
  unfolding visit_stat list_stat
  stat-Agree name s handle r l clean g =
      elim (Bool-cases (w.target.no_cross_filesystem && not (s.dev == w.root_dev))) [
        | inl e ↦ rw e (
          cross_device r,
          refl,
          record { sums = g.sums; blocks = g.blocks; apparent = g.apparent },
        )
        | inr e ↦
            let before : Reader = record r {
              counts = record r.counts {
                max_observed_depth = max r.counts.max_observed_depth (suc job.depth);
              };
              newest = max_ℤ r.newest s.mtime;
            } in
            let after : Listing = record l { newest = max_ℤ l.newest s.mtime } in
            rw e (
              kind-Agree s.kind name s handle before after clean
                (record { sums = g.sums; blocks = g.blocks; apparent = g.apparent }))
      ]

  fails-sums : (code : Option ℕ) (r : Reader) → (fails w job dir_path reported code r).sums ≡ r.sums
  unfolding fails
  fails-sums code r = elim (Bool-cases (is_permission_denied code)) [
    | inl e ↦ rw e refl
    | inr e ↦ rw e refl
  ]

  answer-Agree :
      (answer : StatResult) (name : Bytes) (handle : Option Bytes) (r : Reader) (l : Listing)
      → has_nul (push_component job.path name) ≡ false
      → Agree r l
      → Visits r
          (list_answer w record_plain dir_path answer name l)
          (visit_answer w job dir_path reported answer name handle r)
  unfolding visit_answer
  answer-Agree (stat s) name handle r l clean g = stat-Agree name s handle r l clean g
  answer-Agree (error code) name handle r l clean g = (
    fails w job dir_path reported code r,
    refl,
    record { sums = fails-sums code r ∙ g.sums; blocks = g.blocks; apparent = g.apparent },
  )

  one-Agree :
      (e : Entry) (r : Reader) (l : Listing)
      → has_nul (push_component job.path e.name) ≡ false
      → Agree r l
      → Visits r (list_one w record_plain dir_path e l) (visit w job dir_path reported e r)
  unfolding visit list_one
  one-Agree e r l clean g =
      elim (Bool-cases (w.excluding && w.exclude (push_component dir_path e.name))) [
        | inl x ↦
            rw x
              (excluded r, refl, record { sums = g.sums; blocks = g.blocks; apparent = g.apparent })
        | inr x ↦
            let before : Reader = record r { tracked = r.tracked + e.asked } in
            rw x (
              answer-Agree e.answer e.name e.handle before l clean
                (record { sums = g.sums; blocks = g.blocks; apparent = g.apparent }))
      ]

  all-Agree :
      (es : List Entry) (r : Reader) (l : Listing)
      → All (IsPlain job) es
      → Agree r l
      → (next : Reader) × (visit_all w job dir_path reported es r ≡ ok (some next))
        × Agree next (list_all w record_plain dir_path es l)
  unfolding visit_all list_all
  all-Agree [] r l plain g = (r, refl, g)
  all-Agree (e ∷ es) r l plain g = elim (Bool-cases (is_dot e.name)) [
    | inl dot ↦
        let (next, runs, h) = all-Agree es r l plain.1 g in
        (next, visit_all-dot w job dir_path reported e es r plain.0.0 dot ∙ runs, rw dot h)
    | inr no_dot ↦
        let (middle, visits, h) = one-Agree e r l plain.0.1 g in
        let (next, runs, k) =
          all-Agree es middle (list_one w record_plain dir_path e l) plain.1 h in
        (
          next,
          visit_all-next w job dir_path reported e es r middle plain.0.0 no_dot visits ∙ runs,
          rw no_dot k,
        )
  ]

-- A directory above the depth limit that is read to its end in a walk, while nothing stops the
-- scan, with names that hold no NUL and room for what it counts and for its nodes, and read again later with the same answers of the system: both readings return, and what
-- the second one counts as directly in the directory is what the walk adds to its node's tally.
pub read_direct-read_dir :
    (w : Setup) (job : Job) (rel : Bytes) (record_plain : Bool) (own : Stat) (es : List Entry)
    (g : Gathered)
    → descends w.target.max_depth (suc job.depth) ≡ true
    → All (IsPlain job) es
    → count_of g.counts empty + named es ≤ u64_max
    → job.node < length g.nodes
    → length g.nodes + named es ≤ 4294967296
    → (l : Listing) × (jobs : List Job) × (after : Gathered) × (read_direct w record_plain
          (shown_path w.display_root job.depth rel)
          own
          es
          none
        ≡ listed l)
      × (read_dir w job rel (holds es none) g ≡ ok (reads jobs after))
      × Adds job l.direct g.tallies after.tallies
unfolding read_direct
read_direct-read_dir w job rel record_plain own es g d plain fits in_range room =
    let path = shown_path w.display_root job.depth rel in
    let reported = job.tracked && is_reported w.target job.depth in
    let (sums, jobs, after, runs, r) = read_dir-IsRead w job rel es g d plain fits in_range room in
    let (next, visits, agree) =
      all-Agree w job path reported record_plain es (reader_of g) (nothing_listed own) plain
        (record { sums = refl; blocks = omega arith; apparent = omega arith }) in
    let l = list_all w record_plain path es (nothing_listed own) in
    (
      record l { subdirs = sort_subdirs l.subdirs },
      jobs,
      after,
      refl,
      runs,
      subst (λ t. Adds job t g.tallies after.tallies) (sym (r.summed next visits) ∙ agree.sums)
          r.added,
    )
