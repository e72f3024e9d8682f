-- ===== src/Cache.antt =====
-- src/cache.rs: `TargetSnapshot` and `SnapshotStore`, what is known of each target's scans. The
-- ordered map is an association list in the order of its keys, without a key twice; a lock's
-- guard is the call itself. The moment `now` is an argument.
pub mod History
use Prim.Native.Nat.{Ordering}
use mathlib.Core.Option
use storage_harvester.Base.{
  ℕ, zero, suc, ◌+◌, ◌≡◌, Bool, true, false, ◌&&◌, Option, none, some, List, [], ◌∷◌, map,
  if◌then◌else◌,
}
use storage_harvester.Config.{FilePath, SizeMode, Target}
use storage_harvester.Config.Resolve.{is_some}
use storage_harvester.Scan.{ScanResult}
use storage_harvester.Base.Int.{wrapping_add}
use storage_harvester.Base.Bytes.{Bytes, cmp, eqb}

pub record TargetSnapshot : Type 0 where
  pub target_name : Bytes
  pub target_type : Bytes
  pub path : FilePath
  pub labels : List (Bytes × Bytes)
  pub size_modes : List SizeMode
  pub last_success : Option ScanResult
  pub last_error : Option Bytes
  pub last_attempt : Option ℕ
  pub scan_running : Bool
  pub scan_started : Option ℕ
  pub scan_count : ℕ
  pub failure_count : ℕ
  pub interval : ℕ

pub record ScanSummary : Type 0 where
  pub running : Bool
  pub last_scan : Option ℕ
  pub duration : Option ℕ
  pub last_error : Option Bytes

unfoldable pub is_ready : TargetSnapshot → Bool
is_ready s = is_some s.last_success

unfoldable pub from_target : Target → TargetSnapshot
from_target target = record {
  target_name = target.name;
  target_type = target.target_type;
  path = target.display_path;
  labels = target.labels;
  size_modes = target.size_modes;
  last_success = none;
  last_error = none;
  last_attempt = none;
  scan_running = false;
  scan_started = none;
  scan_count = 0;
  failure_count = 0;
  interval = target.baseline_interval;
}

abbrev pub Store : Type 0
Store = List (Bytes × TargetSnapshot)

-- `BTreeMap::insert`.
unfoldable pub insert : Bytes → TargetSnapshot → Store → Store
insert k s [] = (k, s) ∷ []
insert k s ((j, t) ∷ m) =
    let rest = insert k s m in
    elim (cmp j k) [
      | Ordering.lt ↦ (j, t) ∷ rest
      | Ordering.eq ↦ (k, s) ∷ m
      | Ordering.gt ↦ (k, s) ∷ (j, t) ∷ m
    ]

-- `SnapshotStore::new`: of two targets of one name the later stays.
unfoldable pub collect : List (TargetSnapshot) → Store → Store
collect [] m = m
collect (s ∷ ss) m = collect ss (insert s.target_name s m)

unfoldable pub new : List (TargetSnapshot) → Store
new targets = collect targets []

-- `if let Some(snapshot) = guard.get_mut(name) { ... }`.
unfoldable pub update : Bytes → (TargetSnapshot → TargetSnapshot) → Store → Store
update k f [] = []
update k f ((j, s) ∷ m) = let rest = update k f m in if eqb j k then (j, f s) ∷ m else (j, s) ∷ rest

unfoldable pub get : Bytes → Store → Option (TargetSnapshot)
get k [] = none
get k ((j, s) ∷ m) = let rest = get k m in if eqb j k then some s else rest

unfoldable pub started : ℕ → TargetSnapshot → TargetSnapshot
started now s = record s { scan_running = true; scan_started = some now }

unfoldable pub succeeded : ScanResult → TargetSnapshot → TargetSnapshot
succeeded result s = record s {
  last_attempt = some result.timestamp;
  last_success = some result;
  last_error = none;
  scan_running = false;
  scan_started = none;
  scan_count = wrapping_add s.scan_count 1;
}

unfoldable pub failed : ℕ → Bytes → TargetSnapshot → TargetSnapshot
failed now error s = record s {
  last_attempt = some now;
  last_error = some error;
  scan_running = false;
  scan_started = none;
  scan_count = wrapping_add s.scan_count 1;
  failure_count = wrapping_add s.failure_count 1;
}

unfoldable pub record_scan_start : Bytes → ℕ → Store → Store
record_scan_start name now = update name (started now)

unfoldable pub record_success : Bytes → ScanResult → Store → Store
record_success name result = update name (succeeded result)

unfoldable pub record_failure : Bytes → ℕ → Bytes → Store → Store
record_failure name now error = update name (failed now error)

unfoldable pub summary : TargetSnapshot → ScanSummary
summary s = record {
  running = s.scan_running;
  last_scan = Option.map (λ r. r.timestamp) s.last_success;
  duration = Option.map (λ r. r.duration) s.last_success;
  last_error = s.last_error;
}

unfoldable pub summaries : Store → List (Bytes × ScanSummary)
summaries = map (λ e. (e.1.target_name, summary e.1))

unfoldable pub snapshots : Store → List (TargetSnapshot)
snapshots = map (λ e. e.1)

unfoldable pub ready : Store → Bool
ready [] = true
ready ((k, s) ∷ m) = is_ready s && ready m
