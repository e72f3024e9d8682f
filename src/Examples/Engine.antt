-- ===== src/Examples/Engine.antt =====
-- src/live.rs and src/scheduler.rs at concrete inputs.
use storage_harvester.Base.{
  ℕ, ◌+◌, ◌-◌, ◌*◌, ◌≤◌, ◌<◌, ◌≡◌, refl, ◌⊎◌, inl, inr, Bool, true, false, not, ◌&&◌, ◌||◌, ◌==◌,
  Option, none, some, List, [], ◌∷◌, All, arith, get_elem?, length,
}
use storage_harvester.Base.Bytes.{Bytes, text, eqb}
use storage_harvester.Base.Maps.{same_pair, lookup, member}
use storage_harvester.Base.Result.{Result, ok, err}
use storage_harvester.Live.{
  StableKey, ino, handle, TreeState, LiveTarget, LiveStore, Pending, Queue, Message, change, scan,
  replay, settle,
}
use storage_harvester.Live.Index.{new, resolve, held, plain_holders, plain_key, set_plain}
use storage_harvester.Live.Index.Plain.{in_set, IsIndexed, set_plain-IsIndexed}
use storage_harvester.Live.Index.Holders.{plain_holders_complete}
use storage_harvester.Live.Pace.{enqueue, next_due}
use storage_harvester.Live.Pace.Taken.{next_due-wakes, enqueue-taken, IsQueued}
use storage_harvester.Live.Events.{publish_all}
use storage_harvester.Live.Events.Recent.{publish_all-last, last, changes}
use storage_harvester.Live.Swap.{next_generation, replace}
use storage_harvester.Live.Swap.Handover.{Signal, signal_all, signals-survive}
use storage_harvester.Live.Swap.Replayed.{IsPending}
use storage_harvester.Scheduler.{
  World, finish_scan, timed_out, notified, next_start, early_rescan_gap,
}
use storage_harvester.Scheduler.Pacing.{next_start-paced}
use storage_harvester.Scheduler.Outcomes.{finish_scan-rests, IsFinished}
use storage_harvester.Cache.{TargetSnapshot, from_target, get, started}
use storage_harvester.Examples.Trees.{sample, newer}
use storage_harvester.Examples.Inputs.{sample_target, scanned_target, sample_store}

abbrev or_else : {A : Type 0} → A → Result A → A
or_else a (ok b) = b
or_else a (err e) = a

-- A key of `a/x` in the tree, and one of it in the tree that comes.
abbrev sample_signals : List Signal
sample_signals =
    record { at = 200; key = ino 1100; who = some 7 }
    ∷ record { at = 300; key = ino 1400; who = none }
    ∷ []

abbrev middle : LiveStore
middle = or_else sample_store (signal_all 0 sample_signals sample_store)

abbrev next : LiveStore
next = or_else sample_store (replace 400 0 newer 150 200 middle)

signalled : signal_all 0 sample_signals sample_store ≡ ok middle
unfolding signal_all storage_harvester.Live.Swap.signal storage_harvester.Live.Swap.enqueue_known
    resolve storage_harvester.Live.Index.node_of lookup new storage_harvester.Live.Index.index_inos
    storage_harvester.Base.Maps.remove
signalled = refl

replaced : replace 400 0 newer 150 200 middle ≡ ok next
unfolding signal_all replace resolve lookup new eqb member plain_holders plain_key next_generation
    storage_harvester.Live.Swap.signal storage_harvester.Live.Swap.enqueue_known
    storage_harvester.Live.Index.node_of storage_harvester.Live.Index.index_inos
    storage_harvester.Base.Maps.remove storage_harvester.Live.Swap.replace_at
    storage_harvester.Live.Swap.changes_since storage_harvester.Tree.Diff.diff
    storage_harvester.Tree.Diff.diff_loop storage_harvester.Tree.Diff.diff_pair
    storage_harvester.Tree.Diff.merge_kids storage_harvester.Base.Bytes.cmp
    storage_harvester.Base.Int.clamp_i64 storage_harvester.Base.Int.neg_i64
    storage_harvester.Base.Int.saturating_add_i64 storage_harvester.Live.Index.index_handles
    storage_harvester.Live.Index.linked_during_scan storage_harvester.Live.Index.reread_links
    storage_harvester.Live.Swap.note_key storage_harvester.Live.Swap.resolve_all
    storage_harvester.Tree.Climb.components storage_harvester.Tree.Climb.component_loop
    storage_harvester.Tree.Diff.both_kids storage_harvester.Tree.Diff.came_kid
    storage_harvester.Tree.Diff.display_path storage_harvester.Tree.Diff.gone_kid
    storage_harvester.Tree.Diff.join storage_harvester.Tree.Tally.between
    storage_harvester.Tree.Tally.diff storage_harvester.Tree.Tally.from_tally
    storage_harvester.Tree.Tally.is_zero storage_harvester.Tree.Tally.negate
    storage_harvester.Tree.Tally.plus storage_harvester.Base.Int.◌+ℤ◌
replaced = refl

signals-survive_example :
    ((after : LiveTarget) × (get_elem? next.targets 0 ≡ some after)
      × (after.scanning ≡ false)
      × (after.during_scan ≡ [])
      × (after.state ≡ some (new newer (next_generation scanned_target.state) 150)))
    × All
        (λ s.
          (node : ℕ)
          → resolve (new newer (next_generation scanned_target.state) 150) s.key ≡ ok (some node)
          → IsPending (0, node) (next_generation scanned_target.state) next.queue)
        sample_signals
signals-survive_example =
    signals-survive 400 0 sample_signals newer 150 200 sample_store middle next scanned_target refl
      refl signalled replaced

-- A queue in which one directory waits for its cooldown.
abbrev waiting : Queue
waiting = enqueue 1000 (0, 3) 1 (some 7) sample_store.queue

next_due-wakes_example :
    (w : ℕ) × ((next_due 2000 waiting).0.wake_at ≡ some w)
    × (2000 < w)
    × ((later : ℕ)
        → w ≤ later
        → (k : ℕ × ℕ) × (r : Pending) × (lookup same_pair k
              (next_due later (next_due 2000 waiting).1).0.due
            ≡ some r))
unfolding next_due enqueue lookup storage_harvester.Live.Pace.renew
    storage_harvester.Live.Pace.retain storage_harvester.Live.Pace.put_off
    storage_harvester.Base.Maps.remove
next_due-wakes_example =
    next_due-wakes 2000 waiting (0, 3) (record { generation = 1; who = some 7 }) refl refl

enqueue-taken_example :
    ((p : Pending) × (lookup same_pair
          (0, 3)
          (next_due 60000000 (enqueue 3000 (0, 3) 1 none waiting)).0.due
        ≡ some p)
      × IsQueued 1 none (lookup same_pair (0, 3) waiting.pending) p)
    × ((k : ℕ × ℕ)
        → same_pair (0, 3) k ≡ false
        → lookup same_pair k (enqueue 3000 (0, 3) 1 none waiting).pending
          ≡ lookup same_pair k waiting.pending)
unfolding enqueue lookup
enqueue-taken_example = enqueue-taken 3000 60000000 (0, 3) 1 none waiting (omega arith) refl

abbrev sample_state : TreeState
sample_state = record (new sample 1 100) {
  plain = (5, 1) ∷ (9, 2) ∷ (9, 3) ∷ [];
  plain_live = (7, 3) ∷ (9, 3) ∷ [];
  plain_by_node = (3, 7 ∷ 9 ∷ []) ∷ [];
}

sample_state-IsIndexed : IsIndexed sample_state
unfolding in_set held lookup member
sample_state-IsIndexed = record { agree = λ key node. ground arith }

set_plain-IsIndexed_example :
    ((key : ℕ)
      → member key (held 3 (set_plain 3 (9 ∷ 2 ∷ 9 ∷ []) sample_state).plain_by_node)
        ≡ member key (9 ∷ 2 ∷ 9 ∷ []))
    × ((node : ℕ)
        → (3 == node) ≡ false
        → held node (set_plain 3 (9 ∷ 2 ∷ 9 ∷ []) sample_state).plain_by_node
          ≡ held node sample_state.plain_by_node)
    × IsIndexed (set_plain 3 (9 ∷ 2 ∷ 9 ∷ []) sample_state)
set_plain-IsIndexed_example =
    set_plain-IsIndexed 3 (9 ∷ 2 ∷ 9 ∷ []) sample_state sample_state-IsIndexed

plain_holders_complete_example : member 3 (plain_holders sample_state (0, 9)) ≡ (
    in_set (plain_key 0 9, 3) sample_state.plain
    || member (plain_key 0 9) (held 3 sample_state.plain_by_node))
plain_holders_complete_example =
    plain_holders_complete sample_state (0, 9) 3 sample_state-IsIndexed (ground arith)

publish_all-last_example :
    (publish_all (scan 1 (text "nas") (text "data") 2 3 ∷ []) []
      ≡ last replay (changes (scan 1 (text "nas") (text "data") 2 3 ∷ [])))
    × (length (publish_all (scan 1 (text "nas") (text "data") 2 3 ∷ []) []) ≤ replay)
publish_all-last_example = publish_all-last (scan 1 (text "nas") (text "data") 2 3 ∷ [])

next_start-paced_example :
    (110 ≤ next_start 100 110 500 (notified 120))
    × (next_start 100 110 500 (notified 120) ≤ 110 + 500)
    × ((next_start 100 110 500 (notified 120) ≡ 110 + 500)
        ⊎ ((100 + early_rescan_gap ≤ next_start 100 110 500 (notified 120))
            × ((110 - 100) * 10 ≤ next_start 100 110 500 (notified 120) - 100)))
next_start-paced_example =
    next_start-paced 100 110 500 (notified 120) (omega arith) (omega arith, omega arith)

abbrev snapshot : TargetSnapshot
snapshot = started 90 (from_target sample_target)

abbrev world : World
world = record { store = (text "data", snapshot) ∷ []; live = sample_store }

abbrev world_after : World
world_after = or_else world (finish_scan 500 sample_target 0 timed_out world)

finished_world : finish_scan 500 sample_target 0 timed_out world ≡ ok world_after
unfolding finish_scan storage_harvester.Scheduler.fail storage_harvester.Scheduler.set_scanning
finished_world = refl

finish_scan-rests_example : IsFinished sample_target 0 false world snapshot world_after
unfolding get eqb
finish_scan-rests_example =
    finish_scan-rests 500 sample_target 0 timed_out world world_after snapshot refl finished_world
