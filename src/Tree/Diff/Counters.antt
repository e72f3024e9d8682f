-- ===== src/Tree/Diff/Counters.antt =====
-- src/tree.rs: the counters of a tally and of a difference, one at a time, and what `between`,
-- `plus` and `negate` do to a counter while nothing saturates.
use storage_harvester.Base.{ℕ, ◌≤◌, ◌≡◌, refl, ◌∙◌, ap, true, arith}
use storage_harvester.Base.Int.{ℤ, pos, sub_ℕ, saturating_add_i64, clamp_i64, neg_i64, i64_max}
use storage_harvester.Tree.Tally.Laws.{is_zero_iff}
use storage_harvester.Tree.Tally.{
  is_zero, zero_delta, Tally, Delta, between, plus, negate, diff, empty, from_tally,
}

pub data Counter : Type 0 where
  files dirs symlinks blocks apparent : Counter

unfoldable pub count : Counter → Tally → ℕ
count files t = t.files
count dirs t = t.dirs
count symlinks t = t.symlinks
count blocks t = t.blocks
count apparent t = t.apparent

unfoldable pub change : Counter → Delta → ℤ
change files d = d.files
change dirs d = d.dirs
change symlinks d = d.symlinks
change blocks d = d.blocks
change apparent d = d.apparent

pub change-between :
    (c : Counter) (s t : Tally) → change c (between s t) ≡ diff (count c s) (count c t)
unfolding change count between
change-between files s t = refl
change-between dirs s t = refl
change-between symlinks s t = refl
change-between blocks s t = refl
change-between apparent s t = refl

pub change-plus :
    (c : Counter) (d e : Delta) → change c (plus d e) ≡ saturating_add_i64 (change c d) (change c e)
unfolding change plus
change-plus files d e = refl
change-plus dirs d e = refl
change-plus symlinks d e = refl
change-plus blocks d e = refl
change-plus apparent d e = refl

pub change-negate : (c : Counter) (d : Delta) → change c (negate d) ≡ neg_i64 (change c d)
unfolding change negate
change-negate files d = refl
change-negate dirs d = refl
change-negate symlinks d = refl
change-negate blocks d = refl
change-negate apparent d = refl

count-empty : (c : Counter) → count c empty ≡ 0
unfolding count
count-empty files = refl
count-empty dirs = refl
count-empty symlinks = refl
count-empty blocks = refl
count-empty apparent = refl

pub diff-sub_ℕ : (a b : ℕ) → a ≤ i64_max → b ≤ i64_max → diff a b ≡ sub_ℕ b a
unfolding diff clamp_i64
diff-sub_ℕ a b h k = ground arith

pub neg_i64-sub_ℕ : (a b : ℕ) → a ≤ i64_max → b ≤ i64_max → neg_i64 (sub_ℕ a b) ≡ sub_ℕ b a
unfolding neg_i64
neg_i64-sub_ℕ a b h k = ground arith

pub change-from_tally :
    (c : Counter) (t : Tally) → count c t ≤ i64_max → change c (from_tally t) ≡ pos (count c t)
unfolding from_tally
change-from_tally c t h =
    change-between c empty t
    ∙ (rw (count-empty c) (diff-sub_ℕ 0 (count c t) (omega arith) h ∙ ground arith))

-- A subtree that went counts as minus what it held.
pub change-gone :
    (c : Counter) (t : Tally)
    → count c t ≤ i64_max
    → change c (negate (from_tally t)) ≡ sub_ℕ 0 (count c t)
change-gone c t h =
    change-negate c (from_tally t)
    ∙ (ap neg_i64 (change-from_tally c t h ∙ ground arith)
        ∙ neg_i64-sub_ℕ (count c t) 0 h (omega arith))

pub change-came :
    (c : Counter) (t : Tally) → count c t ≤ i64_max → change c (from_tally t) ≡ sub_ℕ (count c t) 0
change-came c t h = change-from_tally c t h ∙ ground arith

pub change-both :
    (c : Counter) (s t : Tally)
    → count c s ≤ i64_max
    → count c t ≤ i64_max
    → change c (between s t) ≡ sub_ℕ (count c t) (count c s)
change-both c s t h k = change-between c s t ∙ diff-sub_ℕ (count c s) (count c t) h k

change-zero_delta : (c : Counter) → change c zero_delta ≡ pos 0
unfolding change
change-zero_delta files = refl
change-zero_delta dirs = refl
change-zero_delta symlinks = refl
change-zero_delta blocks = refl
change-zero_delta apparent = refl

pub change-zero : (c : Counter) (d : Delta) → is_zero d ≡ true → change c d ≡ pos 0
change-zero c d h = ap (change c) ((is_zero_iff d).0 h) ∙ change-zero_delta c
