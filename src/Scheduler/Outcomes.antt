-- ===== src/Scheduler/Outcomes.antt =====
-- src/scheduler.rs: what a scan's end leaves, whatever its outcome.
use storage_harvester.Base.{
  ℕ, ◌+◌, ◌%◌, ◌≡◌, refl, sym, subst, ap, ◌⊎◌, inl, inr, if◌then◌else◌, Bool, true, false, Option,
  none, some, get_elem?, some_inj,
}
use storage_harvester.Base.Int.{two64, wrapping_add}
use storage_harvester.Base.Bytes.{Bytes, eqb}
use storage_harvester.Base.Result.{ok, or_panic, >>=-eq-ok}
use storage_harvester.Config.{Target}
use storage_harvester.Scan.{ScanResult}
use storage_harvester.Cache.{
  TargetSnapshot, get, succeeded, failed as record_failed, record_success, record_failure,
}
use storage_harvester.Cache.History.{get-update_self, get-update-other}
use storage_harvester.Live.{LiveTarget, LiveStore}
use storage_harvester.Live.Swap.{replace}
use storage_harvester.Tree.Dir.{DirTree}
use storage_harvester.Live.Swap.Replayed.{ok_inj}
use storage_harvester.Live.Swap.Handover.{get-set, replace-IsReplaced}
use storage_harvester.Scheduler.{
  World, ScanOutcome, finished, failed, task_failed, timed_out, set_scanning, hand_over, fail,
  finish_scan, timeout_text,
}

-- The target of an index is not being scanned.
abbrev pub IsIdle : ℕ → LiveStore → Type 0
IsIdle index live =
    (lt : LiveTarget) × (get_elem? live.targets index ≡ some lt) × (lt.scanning ≡ false)

abbrev pub is_success : ScanOutcome → Bool
is_success (finished result) = true
is_success (failed error) = false
is_success (task_failed error) = false
is_success timed_out = false

-- A snapshot after one more scan: what was counted, that no scan runs, and that no tree came with
-- the result kept.
pub record IsRested (success : Bool) (before after : TargetSnapshot) : Type 0 where
  pub scan_count : after.scan_count ≡ (before.scan_count + 1) % two64
  pub failure_count :
      after.failure_count
      ≡ (if success then before.failure_count else (before.failure_count + 1) % two64)
  pub running : after.scan_running ≡ false
  pub started : after.scan_started ≡ none
  pub slim :
      (r : ScanResult)
      → after.last_success ≡ some r
      → (before.last_success ≡ some r) ⊎ (r.tree ≡ none)

held : {A : Type 0} {o : Option A} {a : A} → or_panic o ≡ ok a → o ≡ some a
held {o = none} e = cc
held {o = some b} e = ap some (ok_inj e)

replaced_target :
    (now index : ℕ) (tree : DirTree) (started duration : ℕ) (live next : LiveStore)
    → replace now index tree started duration live ≡ ok next
    → (lt : LiveTarget) × (get_elem? live.targets index ≡ some lt)
unfolding replace
replaced_target now index tree started duration live next e =
    let (lt, el, e1) = >>=-eq-ok (or_panic (get_elem? live.targets index)) _ e in (lt, held el)

set_scanning-IsIdle :
    (index : ℕ) (live next : LiveStore)
    → set_scanning index false live ≡ ok next
    → IsIdle index next
unfolding set_scanning
set_scanning-IsIdle index live next e =
    let (lt, el, e1) = >>=-eq-ok (or_panic (get_elem? live.targets index)) _ e in
    let idle : LiveTarget = record lt { scanning = false } in
    (
      idle,
      subst (λ n. get_elem? n.targets index ≡ some idle) (ok_inj e1)
          (get-set live.targets index lt idle (held el)),
      refl,
    )

hand_over-IsIdle :
    (now index : ℕ) (result : ScanResult) (o : Option DirTree) (live next : LiveStore)
    → hand_over now index result o live ≡ ok next
    → IsIdle index next
unfolding hand_over
hand_over-IsIdle now index result none live next e = set_scanning-IsIdle index live next e
hand_over-IsIdle now index result (some tree) live next e =
    let (lt, at) = replaced_target now index tree result.timestamp result.duration live next e in
    let (after, here, off, none_left, holds, waits) =
      replace-IsReplaced now index tree result.timestamp result.duration live next lt at e in
    (after, here, off)

-- What a scan's end leaves: the target idle, its snapshot one scan further, the others as they were.
abbrev pub IsFinished : Target → ℕ → Bool → World → TargetSnapshot → World → Type 0
IsFinished target index success w s next =
    IsIdle index next.live
    × ((t : TargetSnapshot) × (get target.name next.store ≡ some t) × IsRested success s t)
    × ((k : Bytes) → eqb target.name k ≡ false → get k next.store ≡ get k w.store)

fail-IsFinished :
    (now : ℕ) (target : Target) (index : ℕ) (error : Bytes) (w next : World) (s : TargetSnapshot)
    → get target.name w.store ≡ some s
    → fail now target index error w ≡ ok next
    → IsFinished target index false w s next
unfolding fail record_failure record_failed wrapping_add
fail-IsFinished now target index error w next s h e =
    let (live, el, e1) = >>=-eq-ok (set_scanning index false w.live) _ e in
    subst (IsFinished target index false w s) (ok_inj e1) (
      set_scanning-IsIdle index w.live live el,
      (
        record_failed now error s,
        get-update_self target.name (record_failed now error) w.store s h,
        record {
          scan_count = refl;
          failure_count = refl;
          running = refl;
          started = refl;
          slim = λ r same. inl same;
        },
      ),
      λ k other. get-update-other target.name k (record_failed now error) w.store other,
    )

-- Whatever a scan's outcome, where its target has a snapshot and its end does not panic:
-- afterwards the target is not being scanned; its snapshot counts one scan more, and one failure
-- more unless the scan finished, says that no scan runs, and keeps no tree with a new result;
-- and no other target's snapshot changes.
pub finish_scan-rests :
    (now : ℕ) (target : Target) (index : ℕ) (outcome : ScanOutcome) (w next : World)
    (s : TargetSnapshot)
    → get target.name w.store ≡ some s
    → finish_scan now target index outcome w ≡ ok next
    → IsFinished target index (is_success outcome) w s next
unfolding finish_scan record_success succeeded wrapping_add
finish_scan-rests now target index (finished result) w next s h e =
    let (live, el, e1) = >>=-eq-ok (hand_over now index result result.tree w.live) _ e in
    let kept : ScanResult = record result { tree = none } in
    subst (IsFinished target index true w s) (ok_inj e1) (
      hand_over-IsIdle now index result result.tree w.live live el,
      (
        succeeded kept s,
        get-update_self target.name (succeeded kept) w.store s h,
        record {
          scan_count = refl;
          failure_count = refl;
          running = refl;
          started = refl;
          slim = λ r same. inr (sym (ap (λ q. q.tree) (some_inj same)));
        },
      ),
      λ k other. get-update-other target.name k (succeeded kept) w.store other,
    )
finish_scan-rests now target index (failed error) w next s h e =
    fail-IsFinished now target index error w next s h e
finish_scan-rests now target index (task_failed error) w next s h e =
    fail-IsFinished now target index error w next s h e
finish_scan-rests now target index timed_out w next s h e =
    fail-IsFinished now target index (timeout_text target) w next s h e
