-- ===== src/Walk/Read/Looped.antt =====
-- src/scanner/native.rs: the loop of `read_dir` over the entries.
use storage_harvester.Base.{
  ℕ, suc, ◌+◌, ◌≤◌, ◌<◌, ◌≡◌, refl, sym, ◌∙◌, subst, min, inl, inr, Bool, true, false, some, List,
  [], ◌∷◌, arith, if◌then◌else◌, Bool-cases, All, length,
}
use storage_harvester.Base.Int.{u64_max}
use storage_harvester.Base.Bytes.{Bytes}
use storage_harvester.Base.Result.{ok}
use storage_harvester.Walk.{has_nul, push_component}
use storage_harvester.Walk.Workers.{Job}
use storage_harvester.Walk.Read.{Setup, Entry, Reader, is_dot, visit, visit_all, descends}
use storage_harvester.Walk.Read.Counting.{total, Counted, IsReady}
use storage_harvester.Walk.Read.Entries.{visit-Counted}

-- The entries other than `.` and `..`.
abbrev pub named : List Entry → ℕ
named [] = 0
named (e ∷ es) = if is_dot e.name then named es else suc (named es)

named_dot : (e : Entry) (es : List Entry) → is_dot e.name ≡ true → named (e ∷ es) ≡ named es
named_dot e es h = rw h refl

named_next : (e : Entry) (es : List Entry) → is_dot e.name ≡ false → named (e ∷ es) ≡ suc (named es)
named_next e es h = rw h refl

-- No thread stops the scan meanwhile, and no name holds a NUL.
abbrev pub IsPlain : Job → Entry → Type 0
IsPlain job e = (e.stopped ≡ false) × (has_nul (push_component job.path e.name) ≡ false)

module _ (w : Setup) (job : Job) where
  -- What the loop over some entries does to what the reader counts.
  pub record Looped (n : ℕ) (r next : Reader) : Type 0 where
    pub once : total next ≡ total r + n
    pub placed :
        descends w.target.max_depth (suc job.depth) ≡ true
        → next.sums.dirs + length r.pending + length r.children
          ≡ r.sums.dirs + length next.pending + length next.children
    pub slots :
        w.target.report_depth < suc job.depth
        → length next.pending + min r.tracked w.cap ≤ length r.pending + min next.tracked w.cap
    pub few : length next.pending ≤ length r.pending + n
    pub onward :
        descends w.target.max_depth (suc job.depth) ≡ true
        → All (IsReady job) r.pending
        → All (IsReady job) next.pending

  Looped-none : (r : Reader) → Looped 0 r r
  Looped-none r = record {
    once = omega arith;
    placed = λ d. refl;
    slots = λ d. omega arith;
    few = omega arith;
    onward = λ d all. all;
  }

  module _ (dir_path : Bytes) (reported : Bool) where
    Looped-some :
        (n : ℕ) (r middle next : Reader)
        → Counted w job dir_path reported r middle
        → Looped n middle next
        → Looped (suc n) r next
    Looped-some n r middle next c l = record {
      once = omega (arith, c.once, l.once);
      placed = λ d. omega (arith, c.placed d, l.placed d);
      slots = λ d. omega (arith, c.slots d, l.slots d);
      few = omega (arith, c.few, l.few);
      onward = λ d all. l.onward d (c.onward d all);
    }

    pub visit_all-dot :
        (e : Entry) (es : List Entry) (r : Reader)
        → e.stopped ≡ false
        → is_dot e.name ≡ true
        → visit_all w job dir_path reported (e ∷ es) r ≡ visit_all w job dir_path reported es r
    unfolding visit_all
    visit_all-dot e es r going dot = ground arith

    pub visit_all-next :
        (e : Entry) (es : List Entry) (r middle : Reader)
        → e.stopped ≡ false
        → is_dot e.name ≡ false
        → visit w job dir_path reported e r ≡ ok middle
        → visit_all w job dir_path reported (e ∷ es) r ≡ visit_all w job dir_path reported es middle
    unfolding visit_all
    visit_all-next e es r middle going no_dot visits = ground arith

    pub visit_all-Looped :
        (es : List Entry) (r : Reader)
        → All (IsPlain job) es
        → total r + named es ≤ u64_max
        → (next : Reader) × (visit_all w job dir_path reported es r ≡ ok (some next))
          × Looped (named es) r next
    unfolding visit_all
    visit_all-Looped [] r plain h = (r, refl, Looped-none r)
    visit_all-Looped (e ∷ es) r plain h = elim (Bool-cases (is_dot e.name)) [
      | inl dot ↦
          let (next, runs, l) =
            visit_all-Looped es r plain.1 (omega (arith, h, named_dot e es dot)) in
          (
            next,
            visit_all-dot e es r plain.0.0 dot ∙ runs,
            subst (λ n. Looped n r next) (sym (named_dot e es dot)) l,
          )
      | inr no_dot ↦
          let (middle, visits, c) =
            visit-Counted w job dir_path reported e r plain.0.1
              (omega (arith, h, named_next e es no_dot)) in
          let (next, runs, l) =
            visit_all-Looped es middle plain.1 (omega (arith, h, named_next e es no_dot, c.once)) in
          (
            next,
            visit_all-next e es r middle plain.0.0 no_dot visits ∙ runs,
            subst (λ n. Looped n r next) (sym (named_next e es no_dot))
                (Looped-some (named es) r middle next c l),
          )
    ]
