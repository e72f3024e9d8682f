-- ===== src/Config/Validate/Guarantees.antt =====
-- src/config.rs: what a configuration that `validate` accepts guarantees of its targets.
use mathlib.Core.Option.{get_or}
use storage_harvester.Base.{
  ℕ, ◌≤◌, ◌<◌, ◌≡◌, refl, Bool, true, false, not, none, some, Option, List, [], ◌∷◌, arith, All,
  All-map, ◌≢◌, subst, sym,
}
use storage_harvester.Base.Bytes.{Bytes, eqb_iff}
use storage_harvester.Config.{
  TargetConfig, Config, Target, Outcome, Refusal, ok, refused, ◌>>=◌, ◌>>◌, bail_if,
}
use storage_harvester.Config.Resolve.{
  lvm_of, scanner_of, cap_too_small, resolve_target, resolve_all, resolved_targets, first_some,
}
use storage_harvester.Config.Validate.{
  check_scan_threads, max_scan_threads, check_target, check_targets, validate, contains,
  is_zero_some, check_labels, is_label_name, builtin_labels,
}

-- A check that was passed.
bail_if-ok :
    {B : Type 0} (b : Bool) (why : Refusal) (k : Outcome B) {x : B}
    → (bail_if b why >> k) ≡ ok x
    → (b ≡ false) × (k ≡ ok x)
bail_if-ok true why k e = cc
bail_if-ok false why k e = (refl, e)

>>-ok :
    {B : Type 0} (m : Outcome (Unit {0})) (k : Outcome B) {x : B}
    → (m >> k) ≡ ok x
    → (m ≡ ok tt) × (k ≡ ok x)
>>-ok (ok tt) k e = (refl, e)
>>-ok (refused r) k e = cc

>>=-ok :
    {A B : Type 0} (m : Outcome A) (f : A → Outcome B) {x : B}
    → (m >>= f) ≡ ok x
    → (a : A) × (m ≡ ok a) × (f a ≡ ok x)
>>=-ok (ok a) f e = (a, refl, e)
>>=-ok (refused r) f e = cc

ok_inj : {A : Type 0} {a b : A} → ok a ≡ ok b → a ≡ b
ok_inj e = cc

not-false : (b : Bool) → not b ≡ false → b ≡ true
not-false b e = ground arith

-- What the checks of one target establish.
record IsChecked (names : List Bytes) (t : TargetConfig) : Type 0 where
  unseen : contains names t.name ≡ false
  interval : is_zero_some t.baseline_interval ≡ false
  timeout : is_zero_some t.timeout ≡ false
  threads : check_scan_threads t.scan_threads ≡ ok tt
  labels : check_labels t.labels ≡ ok tt

check_target-IsChecked :
    (names : List Bytes) (t : TargetConfig) → check_target names t ≡ ok tt → IsChecked names t
unfolding check_target
check_target-IsChecked names t e = record {
  unseen = ground arith;
  interval = ground arith;
  timeout = ground arith;
  threads = ground arith;
  labels = ground arith;
}

-- A resolved target that a scan can work with.
pub record IsUsable (t : Target) : Type 0 where
  pub interval : 0 < t.baseline_interval
  pub timeout : 0 < t.timeout
  pub threads : (1 ≤ t.scan_threads) × (t.scan_threads ≤ max_scan_threads)
  pub absolute : t.display_path.absolute ≡ true
  pub depth : (cap : ℕ) → t.max_depth ≡ some cap → t.report_depth ≤ cap

check_scan_threads-range :
    (n d : Option ℕ) (default_threads : ℕ)
    → check_scan_threads n ≡ ok tt
    → check_scan_threads d ≡ ok tt
    → 1 ≤ default_threads
    → default_threads ≤ max_scan_threads
    → (1 ≤ get_or (first_some n d) default_threads)
      × (get_or (first_some n d) default_threads ≤ max_scan_threads)
unfolding check_scan_threads
check_scan_threads-range none none k e f lo hi = (lo, hi)
check_scan_threads-range none (some m) k e f lo hi = ground arith
check_scan_threads-range (some n) d k e f lo hi = ground arith

cap_too_small-le : (o : Option ℕ) (d cap : ℕ) → cap_too_small o d ≡ false → o ≡ some cap → d ≤ cap
cap_too_small-le none d cap e h = cc
cap_too_small-le (some c) d cap e h = ground arith

get_or-pos : (o : Option ℕ) (d : ℕ) → is_zero_some o ≡ false → 0 < d → 0 < get_or o d
get_or-pos none d e h = h
get_or-pos (some n) d e h = ground arith

resolve_target-IsUsable :
    (threads : ℕ) (c : Config) (names : List Bytes) (t : TargetConfig) (r : Target)
    → 1 ≤ threads
    → threads ≤ max_scan_threads
    → 0 < c.defaults.baseline_interval
    → 0 < c.defaults.timeout
    → check_scan_threads c.defaults.scan_threads ≡ ok tt
    → IsChecked names t
    → resolve_target threads c t ≡ ok r
    → IsUsable r
unfolding resolve_target
resolve_target-IsUsable threads c names t r lo hi interval timeout dt checked e =
    let (lvm, _, e1) = >>=-ok (lvm_of c t) _ e in
    let (scanner, _, e2) = >>=-ok (scanner_of c.defaults t lvm) _ e1 in
    let (absolute, e3) = bail_if-ok _ _ _ e2 in
    let (cap, e4) = bail_if-ok _ _ _ e3 in
    subst IsUsable (ok_inj e4) (record {
      interval =
          get_or-pos t.baseline_interval c.defaults.baseline_interval checked.interval interval;
      timeout = get_or-pos t.timeout c.defaults.timeout checked.timeout timeout;
      threads =
          check_scan_threads-range t.scan_threads c.defaults.scan_threads threads checked.threads dt
            lo hi;
      absolute = not-false t.path.absolute absolute;
      depth = λ k h. cap_too_small-le _ _ k cap h;
    })

-- No two targets of the list share a name.
abbrev pub Unique : List TargetConfig → Type 0
Unique [] = Unit
Unique (t ∷ ts) = All (λ s. s.name ≢ t.name) ts × Unique ts

-- A target's labels are names that Prometheus takes and that the exporter does not set itself.
abbrev pub AreLabels : List (Bytes × Bytes) → Type 0
AreLabels = All (λ l. (is_label_name l.0 ≡ true) × (contains builtin_labels l.0 ≡ false))

check_labels-AreLabels :
    (labels : List (Bytes × Bytes)) → check_labels labels ≡ ok tt → AreLabels labels
unfolding check_labels
check_labels-AreLabels [] e = tt
check_labels-AreLabels ((key, value) ∷ labels) e =
    let (valid, e1) = bail_if-ok _ _ _ e in
    let (free, e2) = bail_if-ok _ _ _ e1 in
    ((not-false (is_label_name key) valid, free), check_labels-AreLabels labels e2)

contains-cons :
    (names : List Bytes) (n x : Bytes)
    → contains (n ∷ names) x ≡ false
    → (x ≢ n) × (contains names x ≡ false)
unfolding contains
contains-cons names n x e = (λ same. ground (arith, (eqb_iff n x).1 (sym same)), ground arith)

-- The checks of all targets, the names seen before among them.
check_targets-unseen :
    (names : List Bytes) (ts : List TargetConfig)
    → check_targets names ts ≡ ok tt
    → All (λ s. contains names s.name ≡ false) ts
unfolding check_targets
check_targets-unseen names [] e = tt
check_targets-unseen names (t ∷ ts) e =
    let (here, rest) = >>-ok (check_target names t) _ e in
    (
      (check_target-IsChecked names t here).unseen,
      All-map ts (λ s h. (contains-cons names t.name s.name h).1)
          (check_targets-unseen (t.name ∷ names) ts rest),
    )

check_targets-Unique :
    (names : List Bytes) (ts : List TargetConfig) → check_targets names ts ≡ ok tt → Unique ts
unfolding check_targets
check_targets-Unique names [] e = tt
check_targets-Unique names (t ∷ ts) e =
    let (here, rest) = >>-ok (check_target names t) _ e in
    (
      All-map ts (λ s h. (contains-cons names t.name s.name h).0)
          (check_targets-unseen (t.name ∷ names) ts rest),
      check_targets-Unique (t.name ∷ names) ts rest,
    )

check_targets-AreLabels :
    (names : List Bytes) (ts : List TargetConfig)
    → check_targets names ts ≡ ok tt
    → All (λ t. AreLabels t.labels) ts
unfolding check_targets
check_targets-AreLabels names [] e = tt
check_targets-AreLabels names (t ∷ ts) e =
    let (here, rest) = >>-ok (check_target names t) _ e in
    (
      check_labels-AreLabels t.labels (check_target-IsChecked names t here).labels,
      check_targets-AreLabels (t.name ∷ names) ts rest,
    )

validate-passed :
    (c : Config)
    → validate c ≡ ok tt
    → (check_scan_threads c.defaults.scan_threads ≡ ok tt) × (check_targets [] c.targets ≡ ok tt)
unfolding validate
validate-passed c e = (ground arith, ground arith)

module _ (threads : ℕ) (c : Config) (lo : 1 ≤ threads) (hi : threads ≤ max_scan_threads)
    (interval : 0 < c.defaults.baseline_interval) (timeout : 0 < c.defaults.timeout) where
  resolve_all-IsUsable :
      (names : List Bytes) (ts : List TargetConfig) (rs : List Target)
      → check_scan_threads c.defaults.scan_threads ≡ ok tt
      → check_targets names ts ≡ ok tt
      → resolve_all threads c ts ≡ ok rs
      → All IsUsable rs
  unfolding check_targets resolve_all
  resolve_all-IsUsable names [] rs dt e h = subst (All IsUsable) (ok_inj h) tt
  resolve_all-IsUsable names (t ∷ ts) rs dt e h =
      let (here, rest) = >>-ok (check_target names t) _ e in
      let (r, er, h1) = >>=-ok (resolve_target threads c t) _ h in
      let (others, eo, h2) = >>=-ok (resolve_all threads c ts) _ h1 in
      subst (All IsUsable) (ok_inj h2) (
        resolve_target-IsUsable threads c names t r lo hi interval timeout dt
            (check_target-IsChecked names t here) er,
        resolve_all-IsUsable (t.name ∷ names) ts others dt rest eo,
      )

  -- Of a configuration that `validate` accepts, whose default interval and timeout are not zero, on
  -- a machine with 1 to 256 default threads: every resolved target has an interval and a timeout
  -- above zero, 1 to 256 threads, an absolute path, and a depth cap, if any, that is not below its
  -- reported depth; no two targets share a name; and every label is a valid name that is not built in.
  pub validate-IsUsable :
      (rs : List Target)
      → validate c ≡ ok tt
      → resolved_targets threads c ≡ ok rs
      → All IsUsable rs × Unique c.targets × All (λ t. AreLabels t.labels) c.targets
  unfolding resolved_targets
  validate-IsUsable rs e h =
      let (dt, e8) = validate-passed c e in
      (
        resolve_all-IsUsable [] c.targets rs dt e8 h,
        check_targets-Unique [] c.targets e8,
        check_targets-AreLabels [] c.targets e8,
      )
