-- ===== src/Scheduler.antt =====
-- src/scheduler.rs: when the next scan of a target starts, and what a scan's start and end change in
-- the snapshot store and in the live store. `run_scan` is two steps, since signals come between
-- them. Times and durations are nanoseconds of one clock.
pub mod Pacing
pub mod Outcomes
pub mod Sharing
use storage_harvester.Base.{
  ℕ, zero, suc, ◌+◌, ◌-◌, ◌*◌, ◌/◌, ◌%◌, Bool, true, false, ltb, Option, none, some, List, [], ◌∷◌,
  ◌++◌, if◌then◌else◌, set, get_elem?, min, max,
}
use storage_harvester.Base.Bytes.{Bytes, text}
use storage_harvester.Base.Result.{Result, ok, ◌>>=◌, or_panic}
use storage_harvester.Config.{Target, second}
use storage_harvester.Scan.{ScanResult}
use storage_harvester.Tree.Dir.{DirTree}
use storage_harvester.Live.{LiveTarget, LiveStore}
use storage_harvester.Live.Swap.{replace}
use storage_harvester.Cache.{Store, record_scan_start, record_success, record_failure}

-- `EARLY_RESCAN_GAP`.
abbrev pub early_rescan_gap : ℕ
early_rescan_gap = 60 * second

-- What ends the wait: the time is over, or the live engine asks for a scan at a moment.
pub data Wake : Type 0 where
  timer : Wake
  notified : ℕ → Wake

unfoldable pub early : ℕ → ℕ → ℕ
early started ended = max (started + early_rescan_gap) (ended + (ended - started) * 9)

-- `sleep_until` a moment that has passed returns at once.
unfoldable pub next_start : ℕ → ℕ → ℕ → Wake → ℕ
next_start started ended interval timer = ended + interval
next_start started ended interval (notified at) =
    max at (min (early started ended) (ended + interval))

pub record World : Type 0 where
  pub store : Store
  pub live : LiveStore

-- What the scan's task and its timeout come to.
pub data ScanOutcome : Type 0 where
  finished : ScanResult → ScanOutcome
  failed task_failed : Bytes → ScanOutcome
  timed_out : ScanOutcome

unfoldable pub set_scanning : ℕ → Bool → LiveStore → Result LiveStore
set_scanning index value live = or_panic (get_elem? live.targets index) >>= λ lt.
    ok (record live { targets = set live.targets index (record lt { scanning = value }) })

unfoldable pub begin_scan : ℕ → Target → ℕ → World → Result World
begin_scan now target index w = set_scanning index true w.live >>= λ live.
    ok (record { store = record_scan_start target.name now w.store; live = live })

-- A number in decimal digits; a `u64` has at most 20.
unfoldable pub digits : ℕ → ℕ → Bytes
digits zero n = []
digits (suc fuel) n =
    let rest = digits fuel (n / 10) in
    if ltb n 10 then (48 + n) ∷ [] else rest ++ (48 + n % 10) ∷ []

abbrev pub timeout_text : Target → Bytes
timeout_text target =
    text "scan timed out after " ++ digits 20 (target.timeout / second) ++ text "s"

-- `result.tree.take()`: the tree goes to the live store. That it panics there is not modelled further.
unfoldable pub hand_over : ℕ → ℕ → ScanResult → Option DirTree → LiveStore → Result LiveStore
hand_over now index result none live = set_scanning index false live
hand_over now index result (some tree) live =
    replace now index tree result.timestamp result.duration live

unfoldable pub fail : ℕ → Target → ℕ → Bytes → World → Result World
fail now target index error w = set_scanning index false w.live >>= λ live.
    ok (record { store = record_failure target.name now error w.store; live = live })

unfoldable pub finish_scan : ℕ → Target → ℕ → ScanOutcome → World → Result World
finish_scan now target index (finished result) w =
    hand_over now index result result.tree w.live >>= λ live. ok (record {
      store = record_success target.name (record result { tree = none }) w.store;
      live = live;
    })
finish_scan now target index (failed error) w = fail now target index error w
finish_scan now target index (task_failed error) w = fail now target index error w
finish_scan now target index timed_out w = fail now target index (timeout_text target) w
