-- ===== src/Live/Swap.antt =====
-- src/live.rs: `signal`, which says that a directory may have changed, and `replace`, which takes a
-- finished scan's tree. The moments `now` are arguments. The part of `replace` for a thin pool
-- (`keep_newer_readings` of src/lvm.rs) is left out, with the tree's `pool` field.
pub mod Replayed
pub mod Handover
use storage_harvester.Base.{
  ℕ, suc, ◌+◌, ◌==◌, Bool, true, false, leb, Option, none, some, List, [], ◌∷◌, ◌++◌, if◌then◌else◌,
  set, take, map, get_elem?, ltb,
}
use storage_harvester.Base.Int.{ℤ, pos_part, neg_part, wrapping_add}
use storage_harvester.Base.Bytes.{Bytes, eqb}
use storage_harvester.Base.Maps.{lookup, insert}
use storage_harvester.Base.Result.{Result, ok, ◌>>=◌, or_panic}
use storage_harvester.Config.Resolve.{is_some}
use storage_harvester.Tree.Tally.{Delta}
use storage_harvester.Tree.Dir.{DirTree, node_at, total_blocks}
use storage_harvester.Tree.Diff.{Change, diff}
use storage_harvester.Live.{
  Message, change, scan, StableKey, same_key, TreeState, LiveTarget, LiveStore, scan_changes, Queue,
}
use storage_harvester.Live.Index.{new, resolve, linked_during_scan}
use storage_harvester.Live.Pace.{enqueue}
use storage_harvester.Live.Events.{publish, publish_all}

abbrev pub Keys : Type 0
Keys = List (StableKey × Option ℕ)

-- `during.entry(key).or_default()`, and the process set if it is named.
abbrev pub note_held : StableKey → Option ℕ → Keys → Option (Option ℕ) → Keys
note_held key who m none = insert same_key key who m
note_held key who m (some old) = if is_some who then insert same_key key who m else m

unfoldable pub note_key : StableKey → Option ℕ → Keys → Keys
note_key key who m = note_held key who m (lookup same_key key m)

-- The queue after a signal for a directory that the live tree has.
unfoldable pub enqueue_known : ℕ → LiveTarget → StableKey → Option ℕ → Queue → Result Queue
enqueue_known now lt key who q = elim lt.state [
  | none ↦ ok q
  | some state ↦ resolve state key >>= λ found. elim found [
    | none ↦ ok q
    | some node ↦ ok (enqueue now (lt.index, node) state.generation who q)
  ]
]

abbrev pub note_signal : StableKey → Option ℕ → LiveTarget → LiveTarget
note_signal key who lt =
    if lt.scanning then record lt { during_scan = note_key key who lt.during_scan } else lt

-- `who` is what the call of the source's argument gives.
unfoldable pub signal : ℕ → ℕ → StableKey → Option ℕ → LiveStore → Result LiveStore
signal now index key who store = or_panic (get_elem? store.targets index) >>= λ lt.
    enqueue_known now lt key who store.queue >>= λ q. ok (record store {
      signals = wrapping_add store.signals 1;
      queue = q;
      targets = set store.targets index (note_signal key who lt);
    })

-- The nodes of the new tree that the keys stand for.
abbrev pub keep_found : Option ℕ → Option ℕ → List (ℕ × Option ℕ) → List (ℕ × Option ℕ)
keep_found none who rest = rest
keep_found (some node) who rest = (node, who) ∷ rest

unfoldable pub resolve_all : TreeState → Keys → Result (List (ℕ × Option ℕ))
resolve_all state [] = ok []
resolve_all state ((key, who) ∷ keys) =
    resolve state key >>= λ found. resolve_all state keys >>= λ rest. ok (keep_found found who rest)

unfoldable pub magnitude : Change → ℕ
magnitude (path, delta) = pos_part delta.blocks + neg_part delta.blocks

-- `sort_by_key(Reverse(..))`: the largest first, and equal ones as they came.
unfoldable pub insert_change : Change → List Change → List Change
insert_change c [] = c ∷ []
insert_change c (d ∷ ds) =
    let rest = insert_change c ds in
    if leb (magnitude d) (magnitude c) then c ∷ d ∷ ds else d ∷ rest

unfoldable pub sort_changes : List Change → List Change
sort_changes [] = []
sort_changes (c ∷ cs) = insert_change c (sort_changes cs)

unfoldable pub changes_since : Option TreeState → DirTree → Result (List Change)
changes_since none tree = ok []
changes_since (some old) tree = diff old.tree tree

unfoldable pub next_generation : Option TreeState → ℕ
next_generation none = 1
next_generation (some old) = wrapping_add old.generation 1

unfoldable pub enqueue_all : ℕ → ℕ → ℕ → List (ℕ × Option ℕ) → Queue → Queue
enqueue_all now index generation [] q = q
enqueue_all now index generation ((node, who) ∷ nodes) q =
    enqueue_all now index generation nodes (enqueue now (index, node) generation who q)

-- The messages of one scan.
unfoldable pub scan_messages : ℕ → Bytes → Bytes → List Change → ℕ → ℕ → List Message
scan_messages now host target changes duration total =
    map (λ c. change now host target c.0 c.1) (take scan_changes (sort_changes changes))
    ++ scan now host target duration total ∷ []

unfoldable pub replace_at : LiveTarget → ℕ → ℕ → DirTree → ℕ → ℕ → LiveStore → Result LiveStore
replace_at lt now index tree started duration store = changes_since lt.state tree >>= λ changes.
    let generation = next_generation lt.state in
    let state = new tree generation started in
    node_at state.tree.nodes 0 >>= λ root. resolve_all state lt.during_scan >>= λ signalled.
    linked_during_scan state >>= λ linked. ok (record store {
      targets =
          set store.targets index
            (record lt { state = some state; scanning = false; during_scan = [] });
      recent =
          publish_all
            (scan_messages now store.host lt.target.name changes duration (total_blocks root))
            store.recent;
      queue =
          enqueue_all now index generation (signalled ++ map (λ node. (node, none)) linked)
            store.queue;
    })

unfoldable pub replace : ℕ → ℕ → DirTree → ℕ → ℕ → LiveStore → Result LiveStore
replace now index tree started duration store = or_panic (get_elem? store.targets index) >>= λ lt.
    replace_at lt now index tree started duration store
