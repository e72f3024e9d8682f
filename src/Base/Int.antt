-- ===== src/Base/Int.antt =====
-- Signed integers over the native numbers, and the machine integers `u64` (numbers up to
-- `u64_max`) and `i64` (from -2^63 to 2^63 - 1) with Rust's saturating and wrapping operations.
use Prim.Native.Nat.{ℕ, suc, ◌+◌, ◌-◌, ◌%◌, ◌≤◌, min}
use mathlib.Core.Path.{◌≡◌, subst, sym, ◌∙◌}
use mathlib.Core.Bool.{Bool}
use native.Mathlib.Omega.{arith}
use storage_harvester.Base.Tests.{ltb, leb, ◌==◌, if◌then◌else◌}

-- `negsuc n` is -(n + 1).
pub data ℤ : Type 0 where
  pos : ℕ → ℤ
  negsuc : ℕ → ℤ

abbrev pub pos_part : ℤ → ℕ
pos_part (pos n) = n
pos_part (negsuc n) = 0

abbrev pub neg_part : ℤ → ℕ
neg_part (pos n) = 0
neg_part (negsuc n) = suc n

-- a - b, as an integer.
abbrev pub sub_ℕ : ℕ → ℕ → ℤ
sub_ℕ a b = if leb b a then pos (a - b) else negsuc (b - a - 1)

infixl 65 ◌+ℤ◌
infix 50 ◌≤ℤ◌
unfoldable pub ◌+ℤ◌ : ℤ → ℤ → ℤ
a +ℤ b = sub_ℕ (pos_part a + pos_part b) (neg_part a + neg_part b)

abbrev pub ◌≤ℤ◌ : ℤ → ℤ → Type 0
a ≤ℤ b = pos_part a + neg_part b ≤ pos_part b + neg_part a

abbrev pub leb_ℤ : ℤ → ℤ → Bool
leb_ℤ a b = leb (pos_part a + neg_part b) (pos_part b + neg_part a)

abbrev pub ltb_ℤ : ℤ → ℤ → Bool
ltb_ℤ a b = ltb (pos_part a + neg_part b) (pos_part b + neg_part a)

abbrev pub eqb_ℤ : ℤ → ℤ → Bool
eqb_ℤ a b = pos_part a + neg_part b == pos_part b + neg_part a

pub +ℤ_parts :
    (a b : ℤ)
    → pos_part (a +ℤ b) + neg_part a + neg_part b ≡ neg_part (a +ℤ b) + pos_part a + pos_part b
unfolding ◌+ℤ◌
+ℤ_parts a b = ground arith

pub eq_of_parts : (a b : ℤ) → pos_part a + neg_part b ≡ pos_part b + neg_part a → a ≡ b
eq_of_parts a b h = ground arith

pub sub_ℕ_parts : (a b : ℕ) → pos_part (sub_ℕ a b) + b ≡ neg_part (sub_ℕ a b) + a
sub_ℕ_parts a b = ground arith

pub ruleset int_laws = (arith, +ℤ_parts, eq_of_parts)

-- 2^64 - 1, 2^63 - 1 and 2^63.
abbrev pub u64_max : ℕ
u64_max = 18446744073709551615

abbrev pub i64_max : ℕ
i64_max = 9223372036854775807

abbrev pub two63 : ℕ
two63 = 9223372036854775808

abbrev pub two64 : ℕ
two64 = 18446744073709551616

-- The values of an `i64`.
abbrev pub IsI64 : ℤ → Type 0
IsI64 a = (pos_part a ≤ i64_max) × (neg_part a ≤ two63)

-- `clamp(i64::MIN, i64::MAX)`.
unfoldable pub clamp_i64 : ℤ → ℤ
clamp_i64 (pos n) = pos (min n i64_max)
clamp_i64 (negsuc n) = negsuc (min n i64_max)

-- `i64::saturating_add`.
unfoldable pub saturating_add_i64 : ℤ → ℤ → ℤ
saturating_add_i64 a b = clamp_i64 (a +ℤ b)

-- `-a` on `i64` in a release build: `-i64::MIN` wraps round to itself.
unfoldable pub neg_i64 : ℤ → ℤ
neg_i64 (pos n) = sub_ℕ 0 n
neg_i64 (negsuc n) = if n == i64_max then negsuc n else pos (suc n)

-- `u64::saturating_add` and `u64::saturating_sub`.
abbrev pub saturating_add : ℕ → ℕ → ℕ
saturating_add a b = min (a + b) u64_max

abbrev pub saturating_sub : ℕ → ℕ → ℕ
saturating_sub a b = a - b

-- `a + b` on `u64` in a release build.
unfoldable pub wrapping_add : ℕ → ℕ → ℕ
wrapping_add a b = (a + b) % two64

-- `a - b` on `u64` in a release build.
unfoldable pub wrapping_sub : ℕ → ℕ → ℕ
wrapping_sub a b = (a + (two64 - b)) % two64

pub clamp_i64-IsI64 : (a : ℤ) → IsI64 (clamp_i64 a)
unfolding clamp_i64
clamp_i64-IsI64 (pos n) = omega arith
clamp_i64-IsI64 (negsuc n) = omega arith

pub sub_ℕ-IsI64 : (a b : ℕ) → a ≤ i64_max → b ≤ i64_max → IsI64 (sub_ℕ a b)
sub_ℕ-IsI64 a b h k = ground arith

pub clamp_i64_id : (a : ℤ) → IsI64 a → clamp_i64 a ≡ a
unfolding clamp_i64
clamp_i64_id (pos n) h = ground arith
clamp_i64_id (negsuc n) h = ground arith

-- Without saturation `saturating_add` adds.
pub saturating_add_i64_id : (a b : ℤ) → IsI64 (a +ℤ b) → saturating_add_i64 a b ≡ a +ℤ b
unfolding saturating_add_i64
saturating_add_i64_id a b h = clamp_i64_id (a +ℤ b) h

-- A sum that stands between two `i64` counters is the exact one.
pub saturating_add_i64-sub_ℕ :
    (x y : ℤ) (a b : ℕ)
    → a ≤ i64_max
    → b ≤ i64_max
    → x +ℤ y ≡ sub_ℕ a b
    → saturating_add_i64 x y ≡ sub_ℕ a b
saturating_add_i64-sub_ℕ x y a b h k e =
    saturating_add_i64_id x y (subst IsI64 (sym e) (sub_ℕ-IsI64 a b h k)) ∙ e
