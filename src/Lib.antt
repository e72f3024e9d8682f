-- ===== src/Lib.antt =====
-- Storage Harvester, a service that measures directory trees, keeps them current between scans, and
-- serves them. Its parts, as they work together: the scheduler (src/scheduler.rs) scans each target
-- of the configuration (src/config.rs) again and again; a scan's result (src/scanner/mod.rs) goes to
-- the snapshot store (src/cache.rs) and its tree (src/tree.rs) to the live store (src/live.rs), which
-- publishes how it differs from the tree before and re-reads the directories that a source says have
-- changed, naming the process and container behind a change where it can (src/who.rs).
--
-- Files and what they model:
--   Base: shared names, Boolean tests, lists by native numbers, `i64` arithmetic (Base/Int), bytes
--     (Base/Bytes), results that panic or get stuck (Base/Result), maps and sets as lists (Base/Maps).
--   Tree/Tally: `Tally`, `Delta` of src/tree.rs. Tree/Dir: `DirNode`, `DirTree`. Tree/Climb: the walks up,
--     `components`, `propagate`, `touch`. Tree/Children: `attach`, `child_named`, `find`. Tree/Diff: `diff`.
--     Tree/Detach: `detach`. Tree/Graft: `graft`. Tree/Pruned: `pruned` and the numbers of `node_json`.
--   Who/Container and Who/Resolver: src/who.rs.
--   Walk: the counts, tolerated errors, kept links and reports of src/scanner/native.rs. Walk/Workers:
--     `run`, `work`, `exchange` and `halt`, the workers of a walk as steps in any order. Walk/Read, with
--     Walk/Read/Directory: `read_dir`. Walk/Direct: `read_direct`. Walk/Build: `build_tree`.
--   Scan: the records of src/scanner/mod.rs.
--   Config, with Config/Resolve (`resolve_target`), Config/Validate (`validate`) and Config/Duration
--     (`parse_duration`): src/config.rs. Config/Validate/Guarantees joins the first two.
--   Cache: `TargetSnapshot` and `SnapshotStore` of src/cache.rs.
--   Live: the records of src/live.rs. Live/Index: `TreeState`. Live/Pace: `enqueue`, `next_due`.
--     Live/Events: `publish`. Live/Swap: `signal`, `replace`.
--   Scheduler: the time of the next scan, and `run_scan` as a step at its start and one at its end.
--     Scheduler/Sharing: the roll-up in `sharing_pass`.
--   Examples: the theorems at concrete inputs.
-- The other modules below these hold the theorems.
--
-- State is passed explicitly, and a lock's guard is the call that holds it; the moments that the code
-- reads from a clock are arguments. Text is bytes. A hash map is an association list without a key
-- twice, an ordered set a list in increasing order. Counters are natural numbers with the bounds of
-- `u64` and `i64` written out: an operation wraps round or saturates where the code's does in a
-- release build. An index out of range is the result `err panic`.
--
-- The loops `while at != NONE` of src/tree.rs run on fuel, one round for each node, which is enough
-- where a parent precedes its children; the loop of `diff` has one round for each node of the older
-- tree, which is enough since each pair on its stack is of a subtree of its own. The loop of `detach` has one round
-- for each node, and that of `pruned` one for each node that may be listed. That the fuel is enough
-- is part of the theorems. The engine's loops without an end are single rounds.
--
-- What the system answers to a walk (the entries of a directory, their `stat`, errors, and what other
-- threads did meanwhile) is data that the definitions are given; the patterns of excluded paths and the
-- hashes of paths are parameters.
--
-- Not modelled: the start and the end of a walk (`scan` and `finish` of src/scanner/native.rs, which
-- join what the workers gathered), the re-read of a directory and the sources of signals in src/live.rs,
-- thin pools (src/lvm.rs, and with them the tree's `pool` field and the part of `replace` that reads
-- it), btrfs sharing (src/btrfs.rs), the web interface, metrics, pictures and mount tables; and what
-- only passes data to the system, a library or the log.
pub mod Base
pub mod Tree
pub mod Who
pub mod Scan
pub mod Config
pub mod Cache
pub mod Live
pub mod Walk
pub mod Scheduler
pub mod Examples
