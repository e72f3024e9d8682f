-- ===== src/Live/Pace/Taken.antt =====
-- src/live.rs: a directory that is queued is re-read.
use storage_harvester.Base.{
  ℕ, ◌+◌, ◌≤◌, ◌<◌, ◌≡◌, refl, subst, ◌∙◌, inl, inr, true, false, not, ◌&&◌, Option, none, some,
  List, [], ◌∷◌, arith, Bool-cases, Option-cases, if◌then◌else◌, none≢some,
}
use storage_harvester.Base.Maps.{
  same_pair, same_pair_iff, lookup, insert, lookup-insert_self, lookup-insert_other,
}
use storage_harvester.Config.Resolve.{is_some}
use storage_harvester.Live.{Pending, Queue, settle}
use storage_harvester.Live.Pace.{
  is_over, renew, pending_or_default, enqueue, retain, retain_later, next_due,
}
use storage_harvester.Live.Pace.Due.{is_due, retain-splits, IsAwake, retain-IsAwake}

lookup-retain_later :
    (now : ℕ) (k : ℕ × ℕ) (w : ℕ) (m : List ((ℕ × ℕ) × ℕ))
    → now < w
    → lookup same_pair k m ≡ some w
    → lookup same_pair k (retain_later now m) ≡ some w
unfolding lookup retain_later
lookup-retain_later now k w [] h e = cc
lookup-retain_later now k w ((key, until) ∷ m) h e =
    let rest = lookup-retain_later now k w m h in ground (arith, rest)

-- The cooldowns that a round leaves still hold what ends after it.
kept-cooldown :
    (now : ℕ) (k : ℕ × ℕ) (w : ℕ) (q : Queue)
    → now < w
    → lookup same_pair k q.cooldown ≡ some w
    → lookup same_pair k (next_due now q).1.cooldown ≡ some w
unfolding next_due
kept-cooldown now k w q h e =
    let pruned = lookup-retain_later now k w q.cooldown h e in ground (arith, pruned)

taken :
    (now : ℕ) (k : ℕ × ℕ) (q : Queue) (p : Pending)
    → lookup same_pair k q.pending ≡ some p
    → is_due now q.cooldown k ≡ true
    → lookup same_pair k (next_due now q).0.due ≡ some p
unfolding next_due
taken now k q p h e = (retain-splits now q.cooldown k q.pending).0 ∙ rw e h

nothing_in : (k : ℕ × ℕ) {p : Pending} → lookup same_pair k [] ≡ some p → ⊥
unfolding lookup
nothing_in k e = none≢some e

left :
    (now : ℕ) (k : ℕ × ℕ) (q : Queue) (p : Pending)
    → lookup same_pair k q.pending ≡ some p
    → (next_due now q).0.due ≡ []
    → lookup same_pair k (next_due now q).0.pending ≡ some p
unfolding next_due
left now k q p h e =
    let splits = retain-splits now q.cooldown k q.pending in
    elim (Bool-cases (is_due now q.cooldown k)) [
      | inl d ↦
          absurd (nothing_in k (subst (λ m. lookup same_pair k m ≡ some p) e (splits.0 ∙ rw d h)))
      | inr d ↦ splits.1 ∙ rw d h
    ]

over : {o : Option ℕ} (now w : ℕ) → o ≡ some w → w ≤ now → is_over now o ≡ true
over now w e h = rw e (ground arith)

-- Where a directory waits and a round takes nothing, the round gives a time to wake at, later than
-- now, and a round at that time or any later one takes a directory.
pub next_due-wakes :
    (now : ℕ) (q : Queue) (key : ℕ × ℕ) (p : Pending)
    → lookup same_pair key q.pending ≡ some p
    → (next_due now q).0.due ≡ []
    → (w : ℕ) × ((next_due now q).0.wake_at ≡ some w)
      × (now < w)
      × ((later : ℕ)
          → w ≤ later
          → (k : ℕ × ℕ) × (r : Pending) × (lookup same_pair k
                (next_due later (next_due now q).1).0.due
              ≡ some r))
unfolding next_due
next_due-wakes now q key p h e =
    let stays = left now key q p h e in
    elim (Option-cases (retain now q.cooldown q.pending).wake_at) [
      | inl n ↦ absurd (
          nothing_in key (
            subst (λ m. lookup same_pair key m ≡ some p)
              (subst (λ o. IsAwake now q.cooldown o (retain now q.cooldown q.pending).pending) n
                (retain-IsAwake now q.cooldown q.pending))
              stays))
      | inr (w, s) ↦
          let (before, k, r, held, ends) =
            subst (λ o. IsAwake now q.cooldown o (retain now q.cooldown q.pending).pending) s
              (retain-IsAwake now q.cooldown q.pending) in
          (
            w,
            s,
            before,
            λ later h. (
              k,
              r,
              taken later k (next_due now q).1 r held
                  (over later w (kept-cooldown now k w q before ends) h),
            ),
          )
    ]

-- What `enqueue` leaves of a directory's entry `p` in the queue `q`.
pub record IsQueued (at : ℕ) (who : Option ℕ) (before : Option Pending) (p : Pending) : Type 0 where
  pub generation : p.generation ≡ at
  pub named : (pid : ℕ) → who ≡ some pid → p.who ≡ some pid
  pub unnamed :
      (old : Pending) → before ≡ some old → old.generation ≡ at → who ≡ none → p.who ≡ old.who

pub renew-IsQueued :
    (generation : ℕ) (who : Option ℕ) (before : Option Pending)
    → IsQueued generation who before (renew generation who (pending_or_default before))
unfolding renew
renew-IsQueued generation who before = record {
  generation = ground arith;
  named = λ pid e. ground arith;
  unnamed = λ old e f g. ground arith;
}

cooldown-over :
    (now later : ℕ) (key : ℕ × ℕ) (q : Queue)
    → now + settle ≤ later
    → is_due later q.cooldown key ≡ true
    → is_due later
        (if not (is_some (lookup same_pair key q.pending))
            && is_over now (lookup same_pair key q.cooldown)
          then insert same_pair key (now + settle) q.cooldown
          else q.cooldown)
        key
      ≡ true
cooldown-over now later key q h due =
    let same = (same_pair_iff key key).1 refl in
    let fresh =
      over later (now + settle) (lookup-insert_self same_pair key (now + settle) q.cooldown same)
        h in
    elim (Bool-cases (
      not (is_some (lookup same_pair key q.pending))
      && is_over now (lookup same_pair key q.cooldown))) [ inl e ↦ rw e fresh | inr e ↦ rw e due ]

-- Where a directory is queued at `now`, a round at any time from `now + 50 ms` on at which a
-- cooldown set before is over takes it, for the tree it was queued for, with the process named or,
-- if none is, the one named before for the same tree. No other directory's entry changes.
pub enqueue-taken :
    (now later : ℕ) (key : ℕ × ℕ) (generation : ℕ) (who : Option ℕ) (q : Queue)
    → now + settle ≤ later
    → is_due later q.cooldown key ≡ true
    → ((p : Pending) × (lookup same_pair key
            (next_due later (enqueue now key generation who q)).0.due
          ≡ some p)
        × IsQueued generation who (lookup same_pair key q.pending) p)
      × ((k : ℕ × ℕ)
          → same_pair key k ≡ false
          → lookup same_pair k (enqueue now key generation who q).pending
            ≡ lookup same_pair k q.pending)
unfolding enqueue
enqueue-taken now later key generation who q h due =
    let p = renew generation who (pending_or_default (lookup same_pair key q.pending)) in
    (
      (
        p,
        taken later key (enqueue now key generation who q) p
            (lookup-insert_self same_pair key p q.pending ((same_pair_iff key key).1 refl))
            (cooldown-over now later key q h due),
        renew-IsQueued generation who (lookup same_pair key q.pending),
      ),
      λ k e. lookup-insert_other same_pair same_pair_iff key k p q.pending e,
    )
