-- ===== src/Walk/Read/Counting.antt =====
-- src/scanner/native.rs: what a visit of an entry counts, and the visits that only count.
use mathlib.Core.Path.{ap₂}
use storage_harvester.Base.{
  ℕ, suc, ◌+◌, ◌≤◌, ◌<◌, ◌≡◌, refl, ap, sym, subst, ◌∙◌, min, inl, inr, Bool, true, false, ◌&&◌,
  Option, arith, if◌then◌else◌, Bool-cases, All, length,
}
use storage_harvester.Base.Int.{u64_max, wrapping_add}
use storage_harvester.Base.Bytes.{Bytes}
use storage_harvester.Base.Result.{ok}
use storage_harvester.Tree.Tally.{Tally, add_size}
use storage_harvester.Walk.{Counts, child_path, has_nul, push_component, is_permission_denied}
use storage_harvester.Walk.Workers.{Job}
use storage_harvester.Walk.Read.{
  Setup, PendingDir, Stat, Reader, Kind, plus_one, descends, fails, visit_file, is_shared, is_file,
  keep_file, list_entry, count_entry, entry_index,
}

-- Every counter that an entry may be counted in.
abbrev pub count_of : Counts → Tally → ℕ
count_of c t =
    c.skipped_excluded + c.skipped_cross_device + c.permission_errors + c.missing_path_races
    + t.files + t.dirs + t.symlinks

abbrev pub total : Reader → ℕ
total r = count_of r.counts r.sums

pub plus_one_id : (n : ℕ) → n < u64_max → plus_one n ≡ suc n
unfolding wrapping_add
plus_one_id n h = omega arith

pub child_path-returns :
    (path name : Bytes)
    → has_nul (push_component path name) ≡ false
    → child_path path name ≡ ok (push_component path name)
unfolding child_path
child_path-returns path name h = rw h refl

-- What a visit counts is left as it is.
pub record Same (r next : Reader) : Type 0 where
  pub counts : next.counts ≡ r.counts
  pub sums : next.sums ≡ r.sums
  pub pending : next.pending ≡ r.pending
  pub children : next.children ≡ r.children
  pub tracked : next.tracked ≡ r.tracked

Same-refl : (r : Reader) → Same r r
Same-refl r = record { counts = refl; sums = refl; pending = refl; children = refl; tracked = refl }

-- A subdirectory with a node is read in its turn, by a name that no byte of ends early.
abbrev pub IsReady : Job → PendingDir → Type 0
IsReady job dir = (dir.descend ≡ true) × (has_nul (push_component job.path dir.name) ≡ false)

module _ (w : Setup) (job : Job) (dir_path : Bytes) (reported : Bool) where
  -- What a visit of one entry does to what the reader counts.
  pub record Counted (r next : Reader) : Type 0 where
    pub once : total next ≡ suc (total r)
    pub placed :
        descends w.target.max_depth (suc job.depth) ≡ true
        → next.sums.dirs + length r.pending + length r.children
          ≡ r.sums.dirs + length next.pending + length next.children
    pub slots :
        w.target.report_depth < suc job.depth
        → length next.pending + min r.tracked w.cap ≤ length r.pending + min next.tracked w.cap
    pub few : length next.pending ≤ suc (length r.pending)
    pub onward :
        descends w.target.max_depth (suc job.depth) ≡ true
        → All (IsReady job) r.pending
        → All (IsReady job) next.pending

  Counted-Same : (r middle next : Reader) → Counted r middle → Same middle next → Counted r next
  Counted-Same r middle next c s = record {
    once = ap₂ count_of s.counts s.sums ∙ c.once;
    placed = λ d.
        omega
          (arith, c.placed d, ap (λ t. t.dirs) s.sums, ap length s.pending, ap length s.children);
    slots = λ d. omega (arith, c.slots d, ap length s.pending, s.tracked);
    few = omega (arith, c.few, ap length s.pending);
    onward = λ d all. subst (All (IsReady job)) (sym s.pending) (c.onward d all);
  }

  pub keep_file-Same :
      (name : Bytes) (s : Stat) (entry : Option ℕ) (r : Reader)
      → Same r (keep_file w job dir_path reported name s entry r)
  unfolding keep_file
  keep_file-Same name s entry r = elim (Bool-cases (is_shared s)) [
    | inl e ↦
        rw e
          (record { counts = refl; sums = refl; pending = refl; children = refl; tracked = refl })
    | inr e ↦ elim (Bool-cases (w.for_fanotify && is_file s.kind)) [
      | inl f ↦
          rw (e, f)
            (record { counts = refl; sums = refl; pending = refl; children = refl; tracked = refl })
      | inr f ↦ rw (e, f) (Same-refl r)
    ]
  ]

  pub list_entry-Same :
      (name : Bytes) (kind : Kind) (blocks apparent : ℕ) (r : Reader)
      → Same r (list_entry w job dir_path reported name kind blocks apparent r)
  unfolding list_entry
  list_entry-Same name kind blocks apparent r = elim (Bool-cases reported) [
    | inl e ↦
        rw e
          (record { counts = refl; sums = refl; pending = refl; children = refl; tracked = refl })
    | inr e ↦ rw e (Same-refl r)
  ]

  -- A count that goes up by one, all else as it is.
  pub up_one :
      (r next : Reader)
      → total next ≡ suc (total r)
      → next.sums.dirs ≡ r.sums.dirs
      → next.pending ≡ r.pending
      → next.children ≡ r.children
      → r.tracked ≤ next.tracked
      → Counted r next
  up_one r next once dirs pending children tracked = record {
    once = once;
    placed = λ d. omega (arith, dirs, ap length pending, ap length children);
    slots = λ d. omega (arith, tracked, ap length pending);
    few = omega (arith, ap length pending);
    onward = λ d all. subst (All (IsReady job)) (sym pending) all;
  }

  abbrev pub with_size : Reader → ℕ → ℕ → Reader
  with_size r blocks apparent = record r { sums = add_size r.sums blocks apparent }

  count_entry-Counted :
      (kind : Kind) (blocks apparent : ℕ) (r : Reader)
      → total r < u64_max
      → Counted r (with_size (count_entry w job dir_path reported kind r) blocks apparent)
  unfolding count_entry add_size
  count_entry-Counted Kind.file blocks apparent r h =
      up_one r _ (omega (arith, h, plus_one_id r.sums.files (omega (arith, h)))) refl refl refl
        (omega arith)
  count_entry-Counted Kind.symlink blocks apparent r h =
      up_one r _ (omega (arith, h, plus_one_id r.sums.symlinks (omega (arith, h)))) refl refl refl
        (omega arith)
  count_entry-Counted Kind.directory blocks apparent r h =
      up_one r _ (omega (arith, h, plus_one_id r.sums.files (omega (arith, h)))) refl refl refl
        (omega arith)
  count_entry-Counted Kind.other blocks apparent r h =
      up_one r _ (omega (arith, h, plus_one_id r.sums.files (omega (arith, h)))) refl refl refl
        (omega arith)

  pub visit_file-Counted :
      (name : Bytes) (s : Stat) (r : Reader)
      → total r < u64_max
      → Counted r (visit_file w job dir_path reported name s r)
  unfolding visit_file
  visit_file-Counted name s r h =
      let blocks = if is_shared s then 0 else s.blocks in
      let apparent = if is_shared s then 0 else s.size in
      let summed = with_size (count_entry w job dir_path reported s.kind r) blocks apparent in
      let listed = list_entry w job dir_path reported name s.kind blocks apparent summed in
      Counted-Same r listed _
        (Counted-Same r summed listed (count_entry-Counted s.kind blocks apparent r h)
          (list_entry-Same name s.kind blocks apparent summed))
        (keep_file-Same name s (entry_index w job dir_path reported summed) listed)

  pub fails-Counted :
      (code : Option ℕ) (r : Reader)
      → total r < u64_max
      → Counted r (fails w job dir_path reported code r)
  unfolding fails
  fails-Counted code r h = elim (Bool-cases (is_permission_denied code)) [
    | inl e ↦ rw e (
        up_one r _ (omega (arith, h, plus_one_id r.counts.permission_errors (omega (arith, h))))
          refl refl refl (omega arith))
    | inr e ↦ rw e (
        up_one r _ (omega (arith, h, plus_one_id r.counts.missing_path_races (omega (arith, h))))
          refl refl refl (omega arith))
  ]

  -- What is changed before a visit: only the depth and the time, and what others asked for.
  pub prepared-Counted :
      (r before next : Reader)
      → total before ≡ total r
      → before.sums.dirs ≡ r.sums.dirs
      → before.pending ≡ r.pending
      → before.children ≡ r.children
      → r.tracked ≤ before.tracked
      → Counted before next
      → Counted r next
  prepared-Counted r before next same dirs pending children tracked c = record {
    once = c.once ∙ ap suc same;
    placed = λ d. omega (arith, c.placed d, dirs, ap length pending, ap length children);
    slots = λ d. omega (arith, c.slots d, ap length pending, tracked);
    few = omega (arith, c.few, ap length pending);
    onward = λ d all. c.onward d (subst (All (IsReady job)) (sym pending) all);
  }
