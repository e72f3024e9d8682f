-- ===== src/Scheduler/Sharing.antt =====
-- src/scheduler.rs: the roll-up in `sharing_pass`: what a subtree holds alone is what its
-- directories hold alone.
use mathlib.Core.Path.{fun_ext}
use storage_harvester.Base.{
  ℕ, zero, suc, ◌+◌, ◌-◌, ◌≤◌, ◌<◌, ◌≡◌, refl, ap, sym, ◌∙◌, inl, inr, Option, some, none, List,
  arith, ◌==◌, if◌then◌else◌, Bool-cases, ==_iff, true≢false, set, length, length-set, get_elem?,
  get_elem?-some, get_elem?-set_self, get_elem?-set_ne,
}
use storage_harvester.Base.Int.{u64_max, wrapping_add}
use storage_harvester.Base.Result.{Result, ok, ◌>>=◌, or_panic}
use storage_harvester.Tree.Dir.{no_node}
use storage_harvester.Tree.Climb.Ancestors.{IsTree}
use storage_harvester.Walk.Build.Forest.{below, moved, below-moved, below-le}

-- One round of the loop: the skeleton's parents, and what is freed so far.
unfoldable pub free_one : List ℕ → ℕ → List ℕ → Result (List ℕ)
free_one parents index freed = or_panic (get_elem? parents index) >>= λ parent.
    if parent == no_node
    then ok freed
    else (or_panic (get_elem? freed index) >>= λ own.
        or_panic (get_elem? freed parent) >>= λ held. ok (set freed parent (wrapping_add held own)))

-- The indices from the given one down to 1.
unfoldable pub free_all : List ℕ → ℕ → List ℕ → Result (List ℕ)
free_all parents zero freed = ok freed
free_all parents (suc i) freed = free_one parents (suc i) freed >>= λ next. free_all parents i next

-- The loop on what `sharing` found that each directory holds alone.
unfoldable pub roll_freed : List ℕ → List ℕ → Result (List ℕ)
roll_freed parents alone = free_all parents (length alone - 1) alone

abbrev held_of : Option ℕ → ℕ
held_of none = 0
held_of (some b) = b

abbrev pub held_at : List ℕ → ℕ → ℕ
held_at freed i = held_of (get_elem? freed i)

held_at-set :
    (freed : List ℕ) (p m : ℕ) (v : ℕ)
    → p < length freed
    → v ≡ held_at freed p + held_at freed m
    → held_at (set freed p v) ≡ moved (held_at freed) p m
held_at-set freed p m v lt is = fun_ext (λ j. elim (Bool-cases (j == p)) [
  | inl e ↦ rw e (
      ap (λ k. held_at (set freed p v) k) ((==_iff j p).0 e)
      ∙ (ap held_of (get_elem?-set_self freed p v lt)
          ∙ (is ∙ ap (λ k. held_at freed k + held_at freed m) (sym ((==_iff j p).0 e)))))
  | inr e ↦
      rw e (ap held_of (get_elem?-set_ne freed v (λ q. true≢false ((==_iff j p).1 (sym q)) e)))
])

free_one-runs :
    (parents freed : List ℕ) (m p own held : ℕ)
    → get_elem? parents (suc m) ≡ some p
    → p ≤ m
    → p < no_node
    → get_elem? freed (suc m) ≡ some own
    → get_elem? freed p ≡ some held
    → free_one parents (suc m) freed ≡ ok (set freed p (wrapping_add held own))
unfolding free_one
free_one-runs parents freed m p own held e le small f g = ground arith

wrapping_add_id : (a b : ℕ) → a + b ≤ u64_max → wrapping_add a b ≡ a + b
unfolding wrapping_add
wrapping_add_id a b h = omega (arith, h)

free_all-total :
    (parents freed : List ℕ) (m : ℕ)
    → IsTree parents
    → length freed ≡ length parents
    → m < length freed
    → below (held_at freed) (suc m) ≤ u64_max
    → (after : List ℕ) × (free_all parents m freed ≡ ok after)
      × (held_at after 0 ≡ below (held_at freed) (suc m))
unfolding free_all
free_all-total parents freed zero t long lt fits = (freed, refl, omega arith)
free_all-total parents freed (suc m) t long lt fits =
    let (p, e) = get_elem?-some parents (suc m) (omega (arith, lt, long)) in
    let le = t.up m p e in
    let (own, f) = get_elem?-some freed (suc m) lt in
    let (held, g) = get_elem?-some freed p (omega (arith, lt, le)) in
    let at_own : held_at freed (suc m) ≡ own = ap held_of f in
    let at_held : held_at freed p ≡ held = ap held_of g in
    let room : held + own ≤ u64_max =
      omega
        (arith, fits, below-le (held_at freed) (suc m) p (omega (arith, le)), at_own, at_held) in
    let v = wrapping_add held own in
    let same =
      held_at-set freed p (suc m) v (omega (arith, lt, le))
        (wrapping_add_id held own room ∙ omega (arith, at_own, at_held)) in
    let tops =
      ap (λ h. below h (suc m)) same
      ∙ below-moved (held_at freed) p (suc m) (suc m) (omega (arith, le)) in
    let (after, runs, total) =
      free_all-total parents (set freed p v) m t (length-set freed p v ∙ long)
        (omega (arith, lt, length-set freed p v)) (omega (arith, fits, tops)) in
    (
      after,
      rw (free_one-runs parents freed m p own held e le (omega (arith, le, lt, long, t.fits)) f g)
          runs,
      total ∙ tops,
    )

-- On a tree, with all that its directories hold alone together within `u64`, the roll-up returns,
-- and frees at the root all of it.
pub roll_freed-root :
    (parents alone : List ℕ)
    → IsTree parents
    → length alone ≡ length parents
    → 0 < length alone
    → below (held_at alone) (length alone) ≤ u64_max
    → (freed : List ℕ) × (roll_freed parents alone ≡ ok freed)
      × (held_at freed 0 ≡ below (held_at alone) (length alone))
unfolding roll_freed
roll_freed-root parents alone t long some_node fits =
    let last : suc (length alone - 1) ≡ length alone = omega (arith, some_node) in
    let (freed, runs, total) =
      free_all-total parents alone (length alone - 1) t long (omega (arith, some_node))
        (omega (arith, fits, ap (below (held_at alone)) last)) in
    (freed, runs, total ∙ ap (below (held_at alone)) last)
