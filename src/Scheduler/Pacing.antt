-- ===== src/Scheduler/Pacing.antt =====
-- src/scheduler.rs: how often a target is scanned.
use storage_harvester.Base.{ℕ, ◌+◌, ◌-◌, ◌*◌, ◌≤◌, ◌≡◌, ◌⊎◌, inl, inr, arith, min, max, refl}
use storage_harvester.Scheduler.{Wake, timer, notified, early_rescan_gap, early, next_start}

-- Before a time at which the wait is over.
abbrev pub IsBefore : ℕ → ℕ → Wake → Type 0
IsBefore ended due timer = Unit
IsBefore ended due (notified at) = (ended ≤ at) × (at ≤ due)

early-cases :
    (started ended interval at : ℕ)
    → ended ≤ at
    → at ≤ ended + interval
    → (max at (min (early started ended) (ended + interval)) ≡ ended + interval)
      ⊎ (early started ended ≤ max at (min (early started ended) (ended + interval)))
unfolding early
early-cases started ended interval at lo hi = omega (arith, lo, hi)

-- Of a scan that took from `started` to `ended`, where a scan asked for early is asked for before the
-- next is due: the next one starts after this one's end and not after it is due; and either when
-- it is due, or at least a minute after this one's start and at such a time that at most a tenth
-- of the time from start to start was scanning.
pub next_start-paced :
    (started ended interval : ℕ) (wake : Wake)
    → started ≤ ended
    → IsBefore ended (ended + interval) wake
    → (ended ≤ next_start started ended interval wake)
      × (next_start started ended interval wake ≤ ended + interval)
      × ((next_start started ended interval wake ≡ ended + interval)
          ⊎ ((started + early_rescan_gap ≤ next_start started ended interval wake)
              × ((ended - started) * 10 ≤ next_start started ended interval wake - started)))
unfolding next_start early
next_start-paced started ended interval timer h b = (omega arith, omega arith, inl refl)
next_start-paced started ended interval (notified at) h (lo, hi) = (
  omega (arith, lo, hi),
  omega (arith, lo, hi),
  elim (early-cases started ended interval at lo hi) [
    | inl e ↦ inl e
    | inr e ↦ inr (omega (arith, e, h), omega (arith, e, h))
  ],
)
