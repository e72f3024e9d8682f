-- ===== src/Live.antt =====
-- src/live.rs: the state of the live engine. Times are nanoseconds; a lock's guard is the call that
-- holds it. Of `LiveTarget` and `LiveStore` the fields are kept that the operations modelled here
-- read or write; a lookup of a process that threads share is its number, as in `Who.Resolver`.
pub mod Index
pub mod Pace
pub mod Events
pub mod Swap
use storage_harvester.Base.{ℕ, suc, ◌==◌, Bool, true, false, ◌&&◌, Option, List}
use storage_harvester.Base.Int.{ℤ}
use storage_harvester.Base.Bytes.{Bytes, eqb}
use storage_harvester.Config.{Target}
use storage_harvester.Tree.Tally.{Delta}
use storage_harvester.Tree.Dir.{DirTree, Inode}

-- `REPLAY`, `SCAN_CHANGES` and `SETTLE`.
abbrev pub replay : ℕ
replay = 200

abbrev pub scan_changes : ℕ
scan_changes = 200

abbrev pub settle : ℕ
settle = 50000000

-- `kind` and what the JSON text of `data` is made of.
pub data Message : Type 0 where
  change : ℕ → Bytes → Bytes → Bytes → Delta → Message
  scan : ℕ → Bytes → Bytes → ℕ → ℕ → Message
  other : Bytes → Message

pub data StableKey : Type 0 where
  handle : Bytes → StableKey
  ino : ℕ → StableKey

abbrev pub same_key : StableKey → StableKey → Bool
same_key (handle a) (handle b) = eqb a b
same_key (handle a) (ino b) = false
same_key (ino a) (handle b) = false
same_key (ino a) (ino b) = a == b

pub record TreeState : Type 0 where
  pub tree : DirTree
  pub generation : ℕ
  pub scanned_at : ℕ
  pub live_at : Option ℕ
  pub handles : List (Bytes × ℕ)
  pub inos : List (ℕ × ℕ)
  pub plain : List (ℕ × ℕ)
  pub plain_live : List (ℕ × ℕ)
  pub plain_by_node : List (ℕ × List ℕ)
  pub untracked : List Inode

pub record Pending : Type 0 where
  pub generation : ℕ
  pub who : Option ℕ

-- `pending` and `cooldown`, by the target's index and the node's.
pub record Queue : Type 0 where
  pub pending : List ((ℕ × ℕ) × Pending)
  pub cooldown : List ((ℕ × ℕ) × ℕ)

pub record LiveTarget : Type 0 where
  pub index : ℕ
  pub target : Target
  pub fsid : Option (ℤ × ℤ)
  pub state : Option TreeState
  pub source : Option Bytes
  pub scanning : Bool
  pub during_scan : List (StableKey × Option ℕ)
  pub rescans_requested : ℕ

pub record LiveStore : Type 0 where
  pub host : Bytes
  pub targets : List LiveTarget
  pub recent : List Message
  pub queue : Queue
  pub signals : ℕ
