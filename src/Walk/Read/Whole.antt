-- ===== src/Walk/Read/Whole.antt =====
-- src/scanner/native.rs: what `read_dir` does with a directory that it can read.
use storage_harvester.Base.{
  ℕ, zero, suc, ◌+◌, ◌≤◌, ◌<◌, ◌≡◌, refl, ap, sym, ◌∙◌, subst, All-map, ◌⊎◌, min, inl, inr, Bool,
  true, ◌&&◌, none, some, List, [], ◌∷◌, ◌++◌, arith, Bool-cases, All, map, set, length,
  length-append, length-set, get_elem?, get_elem?-some, get_elem?-set_self, get_elem?_lt,
}
use storage_harvester.Base.Int.{ℤ, u64_max}
use storage_harvester.Base.Bytes.{Bytes}
use storage_harvester.Base.Result.{ok}
use storage_harvester.Tree.Tally.{Tally, empty}
use storage_harvester.Tree.Dir.{to_seconds}
use storage_harvester.Walk.{is_reported}
use storage_harvester.Walk.Build.{TrackedNode, NodeTally, max_ℤ}
use storage_harvester.Walk.Workers.{Job}
use storage_harvester.Walk.Read.{Setup, Entry, Reader, visit_all, descends}
use storage_harvester.Walk.Read.Directory.{
  Gathered, reads, holds, grown, add_tally, add_part, mark_node, node_for, finish_dir, reader_of,
  shown_path, end_dir, read_dir,
}
use storage_harvester.Walk.Read.Counting.{count_of}
use storage_harvester.Walk.Read.Settling.{over, over-append, if_subdir, Settled, IsAlone}
use storage_harvester.Walk.Read.Settled.{visit_all-Settled}
use storage_harvester.Walk.Read.Jobs.{
  HasNode, nodes_of, from, nodes_of-alone, jobs_for-IsMade, get_elem?-past, length-map, All-both,
}
use storage_harvester.Walk.Read.Looped.{named, IsPlain, visit_all-Looped}

ok_some_inj : {r r' : Reader} → ok (some r) ≡ ok (some r') → r ≡ r'
ok_some_inj e = cc

grown-lt : (n : ℕ) (ts : List NodeTally) → n < length (grown n ts)
unfolding grown
grown-lt zero [] = omega arith
grown-lt zero (t ∷ ts) = omega arith
grown-lt (suc n) [] = omega (arith, grown-lt n [])
grown-lt (suc n) (t ∷ ts) = omega (arith, grown-lt n ts)

-- A directory's sums are added to one part of its node's tally.
abbrev pub Adds : Job → Tally → List NodeTally → List NodeTally → Type 0
Adds job sums before after =
    (t t' : NodeTally) × (get_elem? (grown job.node before) job.node ≡ some t)
    × (get_elem? after job.node ≡ some t')
    × (t'.direct ≡ (add_part job.tracked sums t).direct)
    × (t'.below ≡ (add_part job.tracked sums t).below)

add_tally-Adds :
    (job : Job) (sums : Tally) (newest : ℤ) (tallies : List NodeTally)
    → (after : List NodeTally) × (add_tally job sums newest tallies ≡ ok after)
      × Adds job sums tallies after
unfolding add_tally
add_tally-Adds job sums newest tallies =
    let all = grown job.node tallies in
    let (t, e) = get_elem?-some all job.node (grown-lt job.node tallies) in
    let part = add_part job.tracked sums t in
    let t' : NodeTally = record part { newest = max_ℤ part.newest (to_seconds newest) } in
    (
      set all job.node t',
      rw e refl,
      (t, t', e, get_elem?-set_self all job.node t' (get_elem?_lt all job.node e), refl, refl),
    )

mark_node-returns :
    (job : Job) (pruned : Bool) (nodes : List TrackedNode)
    → job.node < length nodes
    → (after : List TrackedNode) × (mark_node job pruned nodes ≡ ok after)
      × (length after ≡ length nodes)
unfolding mark_node
mark_node-returns job pruned nodes h = elim (Bool-cases (pruned && job.tracked)) [
  | inl e ↦
      let (n, at) = get_elem?-some nodes job.node h in
      (
        set nodes job.node (record n { pruned = true }),
        rw e (rw at refl),
        length-set nodes job.node _,
      )
  | inr e ↦ (nodes, rw e refl, refl)
]

-- What reading a directory's entries comes to.
pub record IsRead (w : Setup) (job : Job) (rel : Bytes) (es : List Entry) (g : Gathered)
    (sums : Tally) (jobs : List Job) (after : Gathered) : Type 0 where
  pub once : count_of after.counts sums ≡ count_of g.counts empty + named es
  pub dirs : sums.dirs ≡ length jobs
  pub paths :
      (f : Bytes → ℕ)
      → over (λ j. f j.path) jobs
        ≡ over (if_subdir w job (shown_path w.display_root job.depth rel) f) es
  pub counted_in : All (λ j. IsAlone w job j ⊎ HasNode job after.nodes j) jobs
  pub numbered :
      (added : ℕ) × (length after.nodes ≡ length g.nodes + added)
      × (nodes_of jobs ≡ from (length g.nodes) added)
  pub slots :
      w.target.report_depth < suc job.depth
      → length after.nodes + min g.tracked w.cap ≤ length g.nodes + min after.tracked w.cap
  pub added : Adds job sums g.tallies after.tallies
  pub summed :
      (r : Reader)
      → visit_all w job
          (shown_path w.display_root job.depth rel)
          (job.tracked && is_reported w.target job.depth)
          es
          (reader_of g)
        ≡ ok (some r)
      → r.sums ≡ sums

-- A directory above the depth limit that can be read to its end, while nothing stops the scan, with
-- names that hold no NUL and room for what it counts in `u64` and for its nodes in `u32`, is read:
-- every entry but `.` and `..` is counted once, as skipped, failed or in the sums that are added to
-- the node's tally. The jobs are for the paths of the entries that are subdirectories to read, each
-- as often as it comes. A job either counts into the node of this one, which has its reason, or
-- into a node of its own, which has the subdirectory's name, depth and parent; the nodes that are
-- added are those of such jobs, one each, in their order. Below the report depth, the nodes that it
-- adds fit the slots that its calls of `keeps` took below the cap.
pub read_dir-IsRead :
    (w : Setup) (job : Job) (rel : Bytes) (es : List Entry) (g : Gathered)
    → descends w.target.max_depth (suc job.depth) ≡ true
    → All (IsPlain job) es
    → count_of g.counts empty + named es ≤ u64_max
    → job.node < length g.nodes
    → length g.nodes + named es ≤ 4294967296
    → (sums : Tally) × (jobs : List Job) × (after : Gathered) × (read_dir w job rel
          (holds es none)
          g
        ≡ ok (reads jobs after))
      × IsRead w job rel es g sums jobs after
unfolding read_dir end_dir finish_dir
read_dir-IsRead w job rel es g d plain fits in_range room =
    let path = shown_path w.display_root job.depth rel in
    let reported = job.tracked && is_reported w.target job.depth in
    let (r, runs, l) = visit_all-Looped w job path reported es (reader_of g) plain fits in
    let (nodes, marks, long) = mark_node-returns job r.pruned g.nodes in_range in
    let (r', runs', t) = visit_all-Settled w job path reported es (reader_of g) d plain in
    let same : r' ≡ r = ok_some_inj (sym runs' ∙ runs) in
    let s = subst (Settled w job (λ f. over (if_subdir w job path f) es) (reader_of g)) same t in
    let (jobs, makes, made) =
      jobs_for-IsMade job (nodes ++ map (node_for job) r.pending) (length nodes) r.pending
        (l.onward d tt) (omega (arith, room, long, l.few)) (s.held tt)
        (get_elem?-past nodes (map (node_for job) r.pending)) in
    let (tallies, adds, added) = add_tally-Adds job r.sums r.newest g.tallies in
    (
      r.sums,
      r.children ++ jobs,
      record {
        counts = r.counts;
        entries = r.entries;
        links = r.links;
        link_dirs = r.link_dirs;
        plain = r.plain;
        tallies = tallies;
        nodes = nodes ++ map (node_for job) r.pending;
        tracked = r.tracked;
      },
      rw runs (rw marks (rw makes (rw adds refl))),
      record {
        once = l.once;
        dirs = omega (arith, l.placed d, made.many, length-append r.children jobs);
        paths = λ f.
            omega (arith, s.paths f, over-append (λ j. f j.path) r.children jobs, made.paths f);
        counted_in =
            All-both (λ j. IsAlone w job j ⊎ HasNode job (nodes ++ map (node_for job) r.pending) j)
              r.children jobs (All-map r.children (λ j. inl) (s.alone tt))
              (All-map jobs (λ j. inr) made.all);
        numbered = (
          length r.pending,
          omega (
            arith,
            length-append nodes (map (node_for job) r.pending),
            length-map job r.pending,
            long,
          ),
          nodes_of-alone w job r.children jobs (s.alone tt)
              ∙ (made.own ∙ ap (λ n. from n (length r.pending)) long),
        );
        slots = λ deep. omega (
          arith,
          l.slots deep,
          length-append nodes (map (node_for job) r.pending),
          length-map job r.pending,
          long,
        );
        added = added;
        summed = λ r' runs'. ap (λ x. x.sums) (ok_some_inj (sym runs' ∙ runs));
      },
    )
