-- ===== src/Cache/History.antt =====
-- src/cache.rs: what the store holds after any calls of `record_scan_start`, `record_success` and
-- `record_failure`.
use storage_harvester.Base.{
  ℕ, ◌+◌, ◌%◌, ◌<◌, ◌≡◌, refl, ◌∙◌, subst, sym, inl, inr, Bool, true, false, ◌||◌, some, List, [],
  ◌∷◌, if◌then◌else◌, arith, Bool-cases,
}
use storage_harvester.Base.Int.{two64, wrapping_add}
use storage_harvester.Base.Bytes.{Bytes, eqb, eqb_iff}
use storage_harvester.Config.Resolve.{is_some}
use storage_harvester.Scan.{ScanResult}
use storage_harvester.Cache.{
  TargetSnapshot, is_ready, Store, update, get, started, succeeded, failed, record_scan_start,
  record_success, record_failure,
}

pub data Event : Type 0 where
  start : ℕ → Event
  success : ScanResult → Event
  failure : ℕ → Bytes → Event

unfoldable pub step : Bytes → Event → Store → Store
step name (start now) m = record_scan_start name now m
step name (success result) m = record_success name result m
step name (failure now error) m = record_failure name now error m

-- The calls one after the other, each with the target that it is for.
unfoldable pub play : List (Bytes × Event) → Store → Store
play [] m = m
play ((name, e) ∷ es) m = play es (step name e m)

abbrev pub ended : Event → ℕ
ended (start now) = 0
ended (success result) = 1
ended (failure now error) = 1

abbrev pub fell : Event → ℕ
fell (start now) = 0
fell (success result) = 0
fell (failure now error) = 1

abbrev pub won : Event → Bool
won (start now) = false
won (success result) = true
won (failure now error) = false

-- How many calls for `k` ended a scan, how many of them failed, and whether one succeeded.
unfoldable pub scans : Bytes → List (Bytes × Event) → ℕ
scans k [] = 0
scans k ((name, e) ∷ es) = if eqb name k then ended e + scans k es else scans k es

unfoldable pub failures : Bytes → List (Bytes × Event) → ℕ
failures k [] = 0
failures k ((name, e) ∷ es) = if eqb name k then fell e + failures k es else failures k es

unfoldable pub succeeds : Bytes → List (Bytes × Event) → Bool
succeeds k [] = false
succeeds k ((name, e) ∷ es) = if eqb name k then won e || succeeds k es else succeeds k es

unfoldable after : Event → TargetSnapshot → TargetSnapshot
after (start now) s = started now s
after (success result) s = succeeded result s
after (failure now error) s = failed now error s

pub get-update_self :
    (k : Bytes) (f : TargetSnapshot → TargetSnapshot) (m : Store) (s : TargetSnapshot)
    → get k m ≡ some s
    → get k (update k f m) ≡ some (f s)
unfolding get update
get-update_self k f [] s h = cc
get-update_self k f ((j, t) ∷ m) s h = elim (Bool-cases (eqb j k)) [
  | inl e ↦ ground arith
  | inr e ↦ let rest = get-update_self k f m s in ground arith
]

pub get-update-other :
    (j k : Bytes) (f : TargetSnapshot → TargetSnapshot) (m : Store)
    → eqb j k ≡ false
    → get k (update j f m) ≡ get k m
unfolding get update
get-update-other j k f [] h = refl
get-update-other j k f ((i, t) ∷ m) h =
    let rest = get-update-other j k f m h in
    let same = eqb_iff i j in
    elim (Bool-cases (eqb i j)) [
      | inl e ↦ let other = subst (λ i. eqb i k ≡ false) (sym (same.0 e)) h in ground arith
      | inr e ↦ ground arith
    ]

get-step_self :
    (k : Bytes) (e : Event) (m : Store) (s : TargetSnapshot)
    → get k m ≡ some s
    → get k (step k e m) ≡ some (after e s)
unfolding step record_scan_start record_success record_failure after
get-step_self k (start now) m s h = get-update_self k (started now) m s h
get-step_self k (success result) m s h = get-update_self k (succeeded result) m s h
get-step_self k (failure now error) m s h = get-update_self k (failed now error) m s h

get-step-other :
    (j k : Bytes) (e : Event) (m : Store) → eqb j k ≡ false → get k (step j e m) ≡ get k m
unfolding step record_scan_start record_success record_failure
get-step-other j k (start now) m h = get-update-other j k (started now) m h
get-step-other j k (success result) m h = get-update-other j k (succeeded result) m h
get-step-other j k (failure now error) m h = get-update-other j k (failed now error) m h

-- A snapshot `t` that `s` has become: `n` scans later, `f` of them failures, with or without a success.
pub record Became (s : TargetSnapshot) (n f : ℕ) (ok : Bool) (t : TargetSnapshot) : Type 0 where
  pub scans : t.scan_count ≡ (s.scan_count + n) % two64
  pub failures : t.failure_count ≡ (s.failure_count + f) % two64
  pub ready : is_ready t ≡ (is_ready s || ok)
  pub target : t.target_name ≡ s.target_name
  pub interval : t.interval ≡ s.interval
  pub running : is_some t.scan_started ≡ t.scan_running

abbrev pub IsCounting : TargetSnapshot → Type 0
IsCounting s =
    (s.scan_count < two64) × (s.failure_count < two64) × (is_some s.scan_started ≡ s.scan_running)

mod_small : (n : ℕ) → n < two64 → (n + 0) % two64 ≡ n
mod_small n h = omega (arith, h)

mod_lt : (n : ℕ) → n % two64 < two64
mod_lt n = omega arith

mod_add : (a b c : ℕ) → ((a + b) % two64 + c) % two64 ≡ (a + (b + c)) % two64
mod_add a b c = omega arith

or_true : (b : Bool) → b || true ≡ true
or_true b = ground arith

or_false : (b : Bool) → b || false ≡ b
or_false b = ground arith

or_assoc : (a b c : Bool) → ((a || b) || c) ≡ (a || (b || c))
or_assoc a b c = ground arith

after-Became :
    (e : Event) (s : TargetSnapshot)
    → IsCounting s
    → Became s (ended e) (fell e) (won e) (after e s)
unfolding after started succeeded failed is_ready wrapping_add
after-Became (start now) s h = record {
  scans = sym (mod_small s.scan_count h.0);
  failures = sym (mod_small s.failure_count h.1);
  ready = sym (or_false (is_some s.last_success));
  target = refl;
  interval = refl;
  running = refl;
}
after-Became (success result) s h = record {
  scans = refl;
  failures = sym (mod_small s.failure_count h.1);
  ready = sym (or_true (is_some s.last_success));
  target = refl;
  interval = refl;
  running = refl;
}
after-Became (failure now error) s h = record {
  scans = refl;
  failures = refl;
  ready = sym (or_false (is_some s.last_success));
  target = refl;
  interval = refl;
  running = refl;
}

Became-IsCounting : {s t : TargetSnapshot} {n f : ℕ} {ok : Bool} → Became s n f ok t → IsCounting t
Became-IsCounting {s} {t} {n} {f} {ok} b = (
  subst (λ x. x < two64) (sym b.scans) (mod_lt (s.scan_count + n)),
  subst (λ x. x < two64) (sym b.failures) (mod_lt (s.failure_count + f)),
  b.running,
)

Became-nothing : (s : TargetSnapshot) → IsCounting s → Became s 0 0 false s
Became-nothing s h = record {
  scans = sym (mod_small s.scan_count h.0);
  failures = sym (mod_small s.failure_count h.1);
  ready = sym (or_false (is_ready s));
  target = refl;
  interval = refl;
  running = h.2;
}

Became-then :
    {s t u : TargetSnapshot} {n f m g : ℕ} {a b : Bool}
    → Became s n f a t
    → Became t m g b u
    → Became s (n + m) (f + g) (a || b) u
Became-then {s} {t} {u} {n} {f} {m} {g} {a} {b} x y = record {
  scans = rw (y.scans, x.scans) (mod_add s.scan_count n m);
  failures = rw (y.failures, x.failures) (mod_add s.failure_count f g);
  ready = rw (y.ready, x.ready) (or_assoc (is_ready s) a b);
  target = rw (y.target) x.target;
  interval = rw (y.interval) x.interval;
  running = y.running;
}

-- After any calls, each for any target, on a store that holds a snapshot of `k` whose counts fit
-- `u64` and which has a start time exactly while a scan is running: `k`'s snapshot counts,
-- modulo 2^64, as many scans and failures more as its own calls report, is ready if it was or
-- one of them succeeded, keeps its name and interval, and still has a start time exactly while a
-- scan is running.
pub play-Became :
    (k : Bytes) (es : List (Bytes × Event)) (m : Store) (s : TargetSnapshot)
    → get k m ≡ some s
    → IsCounting s
    → (t : TargetSnapshot) × (get k (play es m) ≡ some t)
      × Became s (scans k es) (failures k es) (succeeds k es) t
unfolding play scans failures succeeds
play-Became k [] m s h c = (s, h, Became-nothing s c)
play-Became k ((name, e) ∷ es) m s h c = elim (Bool-cases (eqb name k)) [
  | inl same ↦
      let one = after-Became e s c in
      let here =
        subst (λ n. get k (step n e m) ≡ some (after e s)) (sym ((eqb_iff name k).0 same))
          (get-step_self k e m s h) in
      let (t, held, became) =
        play-Became k es (step name e m) (after e s) here (Became-IsCounting one) in
      (t, held, rw same (Became-then one became))
  | inr other ↦
      let here = get-step-other name k e m other ∙ h in
      rw other (play-Became k es (step name e m) s here c)
]
