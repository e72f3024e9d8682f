-- ===== src/Live/Pace.antt =====
-- src/live.rs: the queue of directories to re-read: `enqueue`, and one round of `next_due`, which
-- the source repeats after it has waited for `wake_at`, or to be woken.
pub mod Due
pub mod Taken
use storage_harvester.Base.{
  ℕ, ◌+◌, ◌==◌, Bool, true, false, not, ◌&&◌, ltb, leb, Option, none, some, List, [], ◌∷◌,
  if◌then◌else◌, length, min,
}
use storage_harvester.Base.Maps.{same_pair, lookup, insert}
use storage_harvester.Config.Resolve.{is_some}
use storage_harvester.Live.{Pending, Queue, settle}

-- `is_none_or(|until| *until <= now)`.
abbrev pub is_over : ℕ → Option ℕ → Bool
is_over now none = true
is_over now (some until) = leb until now

abbrev pub default_pending : Pending
default_pending = record { generation = 0; who = none }

abbrev pub pending_or_default : Option Pending → Pending
pending_or_default none = default_pending
pending_or_default (some p) = p

-- A node number of another tree is another directory; a signal that names a process is kept.
unfoldable pub renew : ℕ → Option ℕ → Pending → Pending
renew generation who p =
    let here =
      if p.generation == generation then p else record { generation = generation; who = none } in
    if is_some who then record here { who = who } else here

unfoldable pub enqueue : ℕ → ℕ × ℕ → ℕ → Option ℕ → Queue → Queue
enqueue now key generation who q = record {
  pending =
      insert same_pair key
        (renew generation who (pending_or_default (lookup same_pair key q.pending))) q.pending;
  cooldown =
      if not (is_some (lookup same_pair key q.pending))
        && is_over now (lookup same_pair key q.cooldown)
      then insert same_pair key (now + settle) q.cooldown
      else q.cooldown;
}

abbrev pub Waiting : Type 0
Waiting = List ((ℕ × ℕ) × Pending)

-- What `retain` leaves, what it takes, and the least time that a directory left still waits for.
pub record Round : Type 0 where
  pub due : Waiting
  pub pending : Waiting
  pub wake_at : Option ℕ

abbrev pub earlier : ℕ → Option ℕ → Option ℕ
earlier until none = some until
earlier until (some at) = some (min at until)

unfoldable pub put_off : ℕ × ℕ → Pending → ℕ → Round → Round
put_off key p until r = record r {
  pending = (key, p) ∷ r.pending;
  wake_at = earlier until r.wake_at;
}

unfoldable pub let_go : ℕ × ℕ → Pending → Round → Round
let_go key p r = record r { due = (key, p) ∷ r.due }

unfoldable pub retain : ℕ → List ((ℕ × ℕ) × ℕ) → Waiting → Round
retain now cooldown [] = record { due = []; pending = []; wake_at = none }
retain now cooldown ((key, p) ∷ m) =
    let rest = retain now cooldown m in
    elim (lookup same_pair key cooldown) [
      | none ↦ let_go key p rest
      | some until ↦ if ltb now until then put_off key p until rest else let_go key p rest
    ]

-- `cooldown.retain(|_, until| *until > now)`.
unfoldable pub retain_later : ℕ → List ((ℕ × ℕ) × ℕ) → List ((ℕ × ℕ) × ℕ)
retain_later now [] = []
retain_later now ((key, until) ∷ m) =
    let rest = retain_later now m in if ltb now until then (key, until) ∷ rest else rest

unfoldable pub next_due : ℕ → Queue → Round × Queue
next_due now q =
    let round = retain now q.cooldown q.pending in
    (
      round,
      record {
        pending = round.pending;
        cooldown =
            if ltb 100000 (length q.cooldown) then retain_later now q.cooldown else q.cooldown;
      },
    )
