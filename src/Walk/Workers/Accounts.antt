-- ===== src/Walk/Workers/Accounts.antt =====
-- src/scanner/native.rs: no job is lost or read twice, and `busy` counts the busy workers.
use storage_harvester.Base.{
  true≢false, ℕ, ◌+◌, ◌-◌, ◌≤◌, ◌<◌, ◌≡◌, refl, ap, inl, inr, true, false, none, some, List, [],
  ◌∷◌, ◌++◌, arith, get_elem?, set, Option-cases, Bool-cases,
}
use storage_harvester.Walk.Workers.{
  Job, JobQueue, Worker, spawning, unspawned, waiting, left, offering, reading, halting, broken,
  pop, Shared, take_job, exchange, wake, Move, exchanges, wakes, reads, fails, halts, System,
}
use storage_harvester.Walk.Workers.Sums.{
  total, total-append, total-set, total-get, total-pop-some, pop-none, holding, active,
}

abbrev pub breaking : Worker → ℕ
breaking (halting job) = 1
breaking (broken job) = 1
breaking (spawning k) = 0
breaking unspawned = 0
breaking waiting = 0
breaking left = 0
breaking (offering children) = 0
breaking (reading job) = 0

-- The queue and the worker that looked into it: what is queued and held is what was, the busy ones
-- are counted, and the queue stops only when it is empty and no one is busy.
record Takes (q : JobQueue) (held busy : ℕ) (w : Job → ℕ) (p : Worker) (r : JobQueue) : Type 0 where
  jobs : total w r.jobs + holding w p ≡ total w q.jobs + held
  count : r.busy ≡ busy + active p
  stays : q.stopped ≡ true → r.stopped ≡ true
  over : r.stopped ≡ true → q.stopped ≡ false → (r.jobs ≡ []) × (r.busy ≡ 0)
  goes : r.stopped ≡ false → 0 < r.busy
  breaks : breaking p ≡ 0

take_job-Takes : (q : JobQueue) (w : Job → ℕ) → Takes q 0 q.busy w (take_job q).0 (take_job q).1
unfolding take_job
take_job-Takes q w = elim (Option-cases (pop q.jobs)) [
  | inl n ↦
      let nil = pop-none q.jobs n in
      record {
        jobs = ground arith;
        count = ground arith;
        stays = λ e. ground arith;
        over = λ e f. ground arith;
        goes = λ e. ground arith;
        breaks = ground arith;
      }
  | inr ((last, rest), s) ↦
      let sum = total-pop-some w q.jobs last rest s in
      record {
        jobs = ground arith;
        count = ground arith;
        stays = λ e. ground arith;
        over = λ e f. ground arith;
        goes = λ e. ground arith;
        breaks = ground arith;
      }
]

take_job-stopped : (q : JobQueue) → q.stopped ≡ true → take_job q ≡ (left, q)
unfolding take_job
take_job-stopped q e = ground arith

append_nil : (xs : List Job) → xs ++ [] ≡ xs
append_nil [] = refl
append_nil (x ∷ xs) = ap (λ l. x ∷ l) (append_nil xs)

wake-Takes : (q : JobQueue) (w : Job → ℕ) → Takes q 0 q.busy w (wake q).0 (wake q).1
unfolding wake
wake-Takes q w =
    let t = take_job-Takes (record q { idle = q.idle - 1 }) w in
    record {
      jobs = t.jobs;
      count = t.count;
      stays = t.stays;
      over = t.over;
      goes = t.goes;
      breaks = t.breaks;
    }

wake-stopped : (q : JobQueue) → q.stopped ≡ true → wake q ≡ (left, record q { idle = q.idle - 1 })
unfolding wake
wake-stopped q e = take_job-stopped (record q { idle = q.idle - 1 }) e

exchange-none :
    (children : List Job) (q : JobQueue)
    → pop children ≡ none
    → exchange children q ≡ take_job (record q { busy = q.busy - 1 })
unfolding exchange
exchange-none children q e = ground arith

exchange-some :
    (children : List Job) (q : JobQueue) (own : Job) (rest : List Job)
    → pop children ≡ some (own, rest)
    → exchange children q ≡ (reading own, record q { jobs = q.jobs ++ rest })
unfolding exchange
exchange-some children q own [] e = ground (arith, append_nil q.jobs)
exchange-some children q own (other ∷ rest) e = ground arith

exchange-Takes :
    (children : List Job) (q : JobQueue) (w : Job → ℕ)
    → 0 < q.busy
    → Takes q (total w children) (q.busy - 1) w (exchange children q).0 (exchange children q).1
exchange-Takes children q w h = elim (Option-cases (pop children)) [
  | inl n ↦
      let t = take_job-Takes (record q { busy = q.busy - 1 }) w in
      let nil = pop-none children n in
      rw (exchange-none children q n) (record {
        jobs = rw nil t.jobs;
        count = t.count;
        stays = t.stays;
        over = t.over;
        goes = t.goes;
        breaks = t.breaks;
      })
  | inr ((own, rest), s) ↦
      let sum = total-pop-some w children own rest s in
      let all = total-append w q.jobs rest in
      rw (exchange-some children q own rest s) (record {
        jobs = omega (arith, sum, all);
        count = omega (arith, h);
        stays = λ e. e;
        over = λ e f. absurd (true≢false e f);
        goes = λ e. h;
        breaks = refl;
      })
]

-- What holds of the workers and what they share: each job that came up is read, queued, or held by one worker; `busy`
-- counts the active workers; a walk that stopped with none halted has an empty queue and no
-- active worker; and one that goes on has an active worker.
pub record IsWalk (s : System) : Type 0 where
  pub jobs :
      (w : Job → ℕ)
      → total w s.shared.found
        ≡ total w s.shared.done + (total w s.shared.queue.jobs + total (holding w) s.workers)
  pub count : s.shared.queue.busy ≡ total active s.workers
  pub broke : s.shared.halted ≡ false → total breaking s.workers ≡ 0
  pub over :
      s.shared.queue.stopped ≡ true
      → s.shared.halted ≡ false
      → (s.shared.queue.jobs ≡ []) × (s.shared.queue.busy ≡ 0)
  pub goes : s.shared.queue.stopped ≡ false → 0 < s.shared.queue.busy

-- What one worker's change does to the sums.
pub record Change (workers : List Worker) (i : ℕ) (p p' : Worker) : Type 0 where
  pub held :
      (w : Job → ℕ)
      → total (holding w) (set workers i p') + holding w p
        ≡ total (holding w) workers + holding w p'
  pub busy : total active (set workers i p') + active p ≡ total active workers + active p'
  pub broke : total breaking (set workers i p') + breaking p ≡ total breaking workers + breaking p'
  pub was : active p ≤ total active workers
  pub breaks : breaking p ≤ total breaking workers

pub change :
    (workers : List Worker) (i : ℕ) (p p' : Worker)
    → get_elem? workers i ≡ some p
    → Change workers i p p'
change workers i p p' e = record {
  held = λ w. total-set (holding w) workers i p p' e;
  busy = total-set active workers i p p' e;
  broke = total-set breaking workers i p p' e;
  was = total-get active workers i p e;
  breaks = total-get breaking workers i p e;
}

module _ (s : System) (inv : IsWalk s) (i : ℕ) where
  pub Move-IsWalk :
      {p p' : Worker} {next : Shared}
      → get_elem? s.workers i ≡ some p
      → Move s.shared p next p'
      → IsWalk (record { shared = next; workers = set s.workers i p' })
  Move-IsWalk e (exchanges children) =
      let q = s.shared.queue in
      let p' = (exchange children q).0 in
      let c = change s.workers i (offering children) p' e in
      let t = λ (w : Job → ℕ). exchange-Takes children q w (omega (arith, c.was, inv.count)) in
      record {
        jobs = λ w. omega (arith, inv.jobs w, c.held w, (t w).jobs);
        count = omega (arith, inv.count, c.busy, (t (λ j. 0)).count, c.was);
        broke = λ h. omega (arith, inv.broke h, c.broke, (t (λ j. 0)).breaks);
        over = λ h f. elim (Bool-cases q.stopped) [
          | inl st ↦ absurd (omega (arith, (inv.over st f).1, c.was, inv.count))
          | inr go ↦ (t (λ j. 0)).over h go
        ];
        goes = (t (λ j. 0)).goes;
      }
  Move-IsWalk e wakes =
      let q = s.shared.queue in
      let p' = (wake q).0 in
      let c = change s.workers i waiting p' e in
      let t = wake-Takes q in
      record {
        jobs = λ w. omega (arith, inv.jobs w, c.held w, (t w).jobs);
        count = omega (arith, inv.count, c.busy, (t (λ j. 0)).count);
        broke = λ h. omega (arith, inv.broke h, c.broke, (t (λ j. 0)).breaks);
        over = λ h f. elim (Bool-cases q.stopped) [
          | inl st ↦ rw (wake-stopped q st) (inv.over st f)
          | inr go ↦ (t (λ j. 0)).over h go
        ];
        goes = (t (λ j. 0)).goes;
      }
  Move-IsWalk e (reads job children) =
      let c = change s.workers i (reading job) (offering children) e in
      record {
        jobs = λ w. omega (arith, inv.jobs w, c.held w, total-append w s.shared.found children);
        count = omega (arith, inv.count, c.busy);
        broke = λ h. omega (arith, inv.broke h, c.broke);
        over = λ h f. absurd (omega (arith, (inv.over h f).1, c.was, inv.count));
        goes = inv.goes;
      }
  Move-IsWalk e (fails job stop) =
      let c = change s.workers i (reading job) (halting job) e in
      record {
        jobs = λ w. omega (arith, inv.jobs w, c.held w);
        count = omega (arith, inv.count, c.busy);
        broke = λ h. absurd (true≢false refl h);
        over = λ h f. absurd (true≢false refl f);
        goes = inv.goes;
      }
  Move-IsWalk e (halts job) =
      let c = change s.workers i (halting job) (broken job) e in
      record {
        jobs = λ w. omega (arith, inv.jobs w, c.held w);
        count = omega (arith, inv.count, c.busy);
        broke = λ h. absurd (omega (arith, inv.broke h, c.breaks));
        over = λ h f. absurd (omega (arith, inv.broke f, c.breaks));
        goes = λ h. absurd (true≢false refl h);
      }
