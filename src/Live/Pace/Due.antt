-- ===== src/Live/Pace/Due.antt =====
-- src/live.rs: what `enqueue` queues and what a round of `next_due` takes.
use storage_harvester.Base.{
  ℕ, ◌≤◌, ◌<◌, ◌≡◌, refl, subst, inl, inr, Bool, true, false, leb, Option, none, some, List, [],
  ◌∷◌, leb→le, arith, Bool-cases, Option-cases, if◌then◌else◌, min,
}
use storage_harvester.Base.Maps.{same_pair, same_pair_iff, lookup}
use storage_harvester.Live.{Pending}
use storage_harvester.Live.Pace.{is_over, Waiting, put_off, let_go, retain, earlier}

-- Whether a directory may be re-read at a time.
abbrev pub is_due : ℕ → List ((ℕ × ℕ) × ℕ) → ℕ × ℕ → Bool
is_due now cooldown key = is_over now (lookup same_pair key cooldown)

min_left : (a b : ℕ) → a ≤ b → a ≡ min a b
min_left a b h = omega (arith, h)

min_right : (a b : ℕ) → b < a → b ≡ min a b
min_right a b h = omega (arith, h)

module _ (now : ℕ) (cooldown : List ((ℕ × ℕ) × ℕ)) where
  retain-due :
      (key : ℕ × ℕ) (p : Pending) (m : Waiting)
      → is_due now cooldown key ≡ true
      → retain now cooldown ((key, p) ∷ m) ≡ let_go key p (retain now cooldown m)
  unfolding retain
  retain-due key p m e = ground arith

  retain-held :
      (key : ℕ × ℕ) (p : Pending) (m : Waiting)
      → is_due now cooldown key ≡ false
      → (until : ℕ) × (now < until)
        × (lookup same_pair key cooldown ≡ some until)
        × (retain now cooldown ((key, p) ∷ m) ≡ put_off key p until (retain now cooldown m))
  unfolding retain
  retain-held key p m e = elim (Option-cases (lookup same_pair key cooldown)) [
    | inl n ↦ ground arith
    | inr (until, s) ↦ (until, ground arith, s, ground arith)
  ]

  -- Every directory that waits is taken if its cooldown is over and else goes on waiting, with what
  -- it was queued with, and no other directory is taken.
  pub retain-splits :
      (key : ℕ × ℕ) (m : Waiting)
      → (lookup same_pair key (retain now cooldown m).due
          ≡ (if is_due now cooldown key then lookup same_pair key m else none))
        × (lookup same_pair key (retain now cooldown m).pending
            ≡ (if is_due now cooldown key then none else lookup same_pair key m))
  unfolding retain lookup let_go put_off
  retain-splits key [] = ground arith
  retain-splits key ((k, p) ∷ m) =
      let rest = retain-splits key m in
      let same_due =
        λ (e : k ≡ key). subst (λ j. is_due now cooldown k ≡ is_due now cooldown j) e refl in
      let pairs = same_pair_iff k key in
      elim (Bool-cases (is_due now cooldown k)) [
        | inl e ↦ rw (retain-due k p m e) (ground (arith, rest.0, rest.1, same_due))
        | inr e ↦
            let (until, later, s, eq) = retain-held k p m e in
            rw eq (ground (arith, rest.0, rest.1, same_due))
      ]

  -- Something left waits until the time to wake, if any; without one nothing is left.
  abbrev pub IsAwake : Option ℕ → Waiting → Type 0
  IsAwake none pending = pending ≡ []
  IsAwake (some w) pending =
      (now < w)
      × (k : ℕ × ℕ) × (p : Pending) × (lookup same_pair k pending ≡ some p)
      × (lookup same_pair k cooldown ≡ some w)

  lookup-cons :
      (k key : ℕ × ℕ) (p r : Pending) (m : Waiting)
      → lookup same_pair k m ≡ some r
      → (t : Pending) × (lookup same_pair k ((key, p) ∷ m) ≡ some t)
  unfolding lookup
  lookup-cons k key p r m h = elim (Bool-cases (same_pair key k)) [
    | inl e ↦ (p, rw e refl)
    | inr e ↦ (r, rw e h)
  ]

  lookup-head :
      (key : ℕ × ℕ) (p : Pending) (m : Waiting) → lookup same_pair key ((key, p) ∷ m) ≡ some p
  unfolding lookup
  lookup-head key p m = rw ((same_pair_iff key key).1 refl) refl

  put_off-IsAwake :
      (key : ℕ × ℕ) (p : Pending) (until : ℕ) (o : Option ℕ) (m : Waiting)
      → now < until
      → lookup same_pair key cooldown ≡ some until
      → IsAwake o m
      → IsAwake (earlier until o) ((key, p) ∷ m)
  put_off-IsAwake key p until none m later s h = (later, key, p, lookup-head key p m, s)
  put_off-IsAwake key p until (some at) m later s (before, k, r, held, ends) =
      let (t, found) = lookup-cons k key p r m held in
      elim (Bool-cases (leb at until)) [
        | inl e ↦
            subst (λ w. IsAwake (some w) ((key, p) ∷ m)) (min_left at until (leb→le at until e))
              (before, k, t, found, ends)
        | inr e ↦
            subst (λ w. IsAwake (some w) ((key, p) ∷ m)) (min_right at until (ground arith))
              (later, key, p, lookup-head key p m, s)
      ]

  pub retain-IsAwake :
      (m : Waiting) → IsAwake (retain now cooldown m).wake_at (retain now cooldown m).pending
  unfolding retain let_go put_off
  retain-IsAwake [] = refl
  retain-IsAwake ((key, p) ∷ m) =
      let rest = retain-IsAwake m in
      elim (Bool-cases (is_due now cooldown key)) [
        | inl e ↦ rw (retain-due key p m e) rest
        | inr e ↦
            let (until, later, s, eq) = retain-held key p m e in
            rw eq (
              put_off-IsAwake key p until (retain now cooldown m).wake_at
                (retain now cooldown m).pending later s rest)
      ]
