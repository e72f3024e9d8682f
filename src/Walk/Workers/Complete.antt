-- ===== src/Walk/Workers/Complete.antt =====
-- src/scanner/native.rs: a walk that ended has read every directory that came up, once, and one that
-- has not ended does not hang.
use storage_harvester.Base.{
  true≢false, ℕ, zero, suc, ◌<◌, ◌≡◌, refl, ap, sym, ◌∙◌, ◌⊎◌, inl, inr, true, false, some, List,
  [], ◌∷◌, arith, get_elem?, set, get_elem?-set_ne, ℕ_discrete,
}
use storage_harvester.Walk.Workers.{
  Job, Worker, spawning, unspawned, waiting, left, offering, reading, halting, broken, System, Step,
  moves, spawns, spawn_fails, starts, unspawned_workers, start, Reach, begun, later,
}
use storage_harvester.Walk.Workers.Sums.{total, total-get, holding, active}
use storage_harvester.Walk.Workers.Accounts.{IsWalk, Change, change, breaking, Move-IsWalk}

-- The first worker goes on to the next index, and the one of this index becomes `p`.
module _ (workers : List Worker) (k : ℕ) (p : Worker) (e : get_elem? workers 0 ≡ some (spawning k))
    (f : get_elem? workers k ≡ some unspawned) where
  first : get_elem? (set workers k p) 0 ≡ some (spawning k)
  first = elim (ℕ_discrete k 0) [
    | yes z ↦ absurd (not_both (sym e ∙ ap (get_elem? workers) (sym z) ∙ f))
    | no nz ↦ get_elem?-set_ne workers p nz ∙ e
  ]
    where
      not_both : {j : ℕ} → some (spawning j) ≡ some unspawned → ⊥
      not_both h = cc

  spawned : Change workers k unspawned p
  spawned = change workers k unspawned p f

  next : Change (set workers k p) 0 (spawning k) (spawning (suc k))
  next = change (set workers k p) 0 (spawning k) (spawning (suc k)) first

pub Step-IsWalk : {s t : System} → IsWalk s → Step s t → IsWalk t
Step-IsWalk {s} inv (moves i e mv) = Move-IsWalk s inv i e mv
Step-IsWalk {s} inv (spawns k e f) =
    let a = spawned s.workers k (offering []) e f in
    let b = next s.workers k (offering []) e f in
    record {
      jobs = λ w. omega (arith, inv.jobs w, a.held w, b.held w);
      count = omega (arith, inv.count, a.busy, b.busy);
      broke = λ h. omega (arith, inv.broke h, a.broke, b.broke);
      over = inv.over;
      goes = inv.goes;
    }
Step-IsWalk {s} inv (spawn_fails k e f) =
    let a = spawned s.workers k left e f in
    let b = next s.workers k left e f in
    record {
      jobs = λ w. omega (arith, inv.jobs w, a.held w, b.held w);
      count = omega (arith, inv.count, a.busy, b.busy, b.was);
      broke = λ h. omega (arith, inv.broke h, a.broke, b.broke);
      over = λ h n. absurd (omega (arith, (inv.over h n).1, inv.count, a.was));
      goes = λ h. omega (arith, inv.count, a.busy, b.was);
    }
Step-IsWalk {s} inv (starts k e f) =
    let c = change s.workers 0 (spawning k) (offering []) e in
    record {
      jobs = λ w. omega (arith, inv.jobs w, c.held w);
      count = omega (arith, inv.count, c.busy);
      broke = λ h. omega (arith, inv.broke h, c.broke);
      over = inv.over;
      goes = inv.goes;
    }

total-unspawned_zero :
    (g : Worker → ℕ) (n : ℕ) → g unspawned ≡ 0 → total g (unspawned_workers n) ≡ 0
unfolding unspawned_workers
total-unspawned_zero g zero h = refl
total-unspawned_zero g (suc n) h = omega (arith, h, total-unspawned_zero g n h)

total-unspawned_one : (n : ℕ) → total active (unspawned_workers n) ≡ n
unfolding unspawned_workers
total-unspawned_one zero = refl
total-unspawned_one (suc n) = omega (arith, total-unspawned_one n)

start-IsWalk : (root : Job) (others : ℕ) → IsWalk (start root others)
unfolding start
start-IsWalk root others = record {
  jobs = λ w. omega (arith, total-unspawned_zero (holding w) others refl);
  count = omega (arith, total-unspawned_one others);
  broke = λ h. omega (arith, total-unspawned_zero breaking others refl);
  over = λ h f. absurd (true≢false h refl);
  goes = λ h. omega arith;
}

pub Reach-IsWalk : {root : Job} {others : ℕ} {s : System} → Reach root others s → IsWalk s
Reach-IsWalk {root} {others} begun = start-IsWalk root others
Reach-IsWalk (later r st) = Step-IsWalk (Reach-IsWalk r) st

active-cases : (p : Worker) → (active p ≡ 1) ⊎ (active p ≡ 0)
active-cases (spawning k) = inl refl
active-cases unspawned = inl refl
active-cases waiting = inr refl
active-cases left = inr refl
active-cases (offering children) = inl refl
active-cases (reading job) = inl refl
active-cases (halting job) = inl refl
active-cases (broken job) = inl refl

idle_holds : (w : Job → ℕ) (p : Worker) → active p ≡ 0 → holding w p ≡ 0
idle_holds w p h = ground arith

-- Who is not active holds nothing.
holding-le : (w : Job → ℕ) (ps : List Worker) → total active ps ≡ 0 → total (holding w) ps ≡ 0
holding-le w [] h = refl
holding-le w (p ∷ ps) h =
    let rest = holding-le w ps (omega (arith, h)) in
    omega (arith, rest, idle_holds w p (omega (arith, h)))

some-active :
    (workers : List Worker)
    → 0 < total active workers
    → (i : ℕ) × (p : Worker) × (get_elem? workers i ≡ some p) × (active p ≡ 1)
some-active [] h = absurd (omega (arith, h))
some-active (p ∷ ps) h = elim (active-cases p) [
  | inl e ↦ (0, p, refl, e)
  | inr e ↦ let (i, q, at, a) = some-active ps (omega (arith, h, e)) in (suc i, q, at, a)
]

-- Whatever steps the workers took, in whatever order: once the queue has stopped and none of them
-- stopped it early, nothing is queued, no worker is active, and the directories read are those that
-- came up, each as often as it came up (any weight of them adds up to the same).
pub Reach-complete :
    {root : Job} {others : ℕ} {s : System}
    → Reach root others s
    → s.shared.queue.stopped ≡ true
    → s.shared.halted ≡ false
    → (s.shared.queue.jobs ≡ [])
      × ((i : ℕ) (p : Worker) → get_elem? s.workers i ≡ some p → active p ≡ 0)
      × ((w : Job → ℕ) → total w s.shared.done ≡ total w s.shared.found)
Reach-complete {s = s} r stopped whole =
    let inv = Reach-IsWalk r in
    let (nil, none_busy) = inv.over stopped whole in
    (
      nil,
      λ i p e. omega (arith, total-get active s.workers i p e, inv.count, none_busy),
      λ w.
          let sums = inv.jobs w in
          let idle = holding-le w s.workers (omega (arith, inv.count, none_busy)) in
          let nothing = ap (total w) nil in omega (arith, sums, idle, nothing),
    )

-- Whatever steps the workers took: until the queue has stopped, some worker is active, so they are
-- never all waiting or gone.
pub Reach-active :
    {root : Job} {others : ℕ} {s : System}
    → Reach root others s
    → s.shared.queue.stopped ≡ false
    → (i : ℕ) × (p : Worker) × (get_elem? s.workers i ≡ some p) × (active p ≡ 1)
Reach-active {s = s} r going =
    let inv = Reach-IsWalk r in some-active s.workers (omega (arith, inv.goes going, inv.count))
