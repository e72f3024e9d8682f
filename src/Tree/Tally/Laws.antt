-- ===== src/Tree/Tally/Laws.antt =====
-- src/tree.rs: what the operations on tallies and deltas guarantee.
use storage_harvester.Base.{ℕ, ◌+◌, ◌≤◌, ◌≡◌, ◌↔◌, ◌∙◌, ap, true, arith}
use storage_harvester.Base.Int.{
  ℤ, pos, pos_part, neg_part, ◌+ℤ◌, IsI64, clamp_i64, saturating_add_i64_id, +ℤ_parts,
  clamp_i64-IsI64, saturating_add_i64, neg_i64, u64_max, i64_max, two63,
}
use storage_harvester.Tree.Tally.{
  Tally, Delta, zero_delta, apply, shift, diff, between, plus, negate, is_zero,
}

-- Every counter is a `u64`.
pub record IsTally (t : Tally) : Type 0 where
  pub files : t.files ≤ u64_max
  pub dirs : t.dirs ≤ u64_max
  pub symlinks : t.symlinks ≤ u64_max
  pub blocks : t.blocks ≤ u64_max
  pub apparent : t.apparent ≤ u64_max

-- Every difference is an `i64`.
pub record IsDelta (d : Delta) : Type 0 where
  pub files : IsI64 d.files
  pub dirs : IsI64 d.dirs
  pub symlinks : IsI64 d.symlinks
  pub blocks : IsI64 d.blocks
  pub apparent : IsI64 d.apparent

-- Two counters are near when their difference is an `i64`.
abbrev pub Near : ℕ → ℕ → Type 0
Near old new = (new ≤ old + i64_max) × (old ≤ new + two63)

pub record AreNear (old new : Tally) : Type 0 where
  pub files : Near old.files new.files
  pub dirs : Near old.dirs new.dirs
  pub symlinks : Near old.symlinks new.symlinks
  pub blocks : Near old.blocks new.blocks
  pub apparent : Near old.apparent new.apparent

diff-IsI64 : (old new : ℕ) → IsI64 (diff old new)
unfolding diff
diff-IsI64 old new = clamp_i64-IsI64 _

saturating_add_i64-IsI64 : (a b : ℤ) → IsI64 (saturating_add_i64 a b)
unfolding saturating_add_i64
saturating_add_i64-IsI64 a b = clamp_i64-IsI64 _

shift-le : (v : ℕ) (by : ℤ) → v ≤ u64_max → shift v by ≤ u64_max
unfolding shift
shift-le v by h = ground arith

shift-diff : (old new : ℕ) → new ≤ u64_max → Near old new → shift old (diff old new) ≡ new
unfolding shift diff clamp_i64
shift-diff old new h n = ground arith

shift-plus :
    (v : ℕ) (a b : ℤ)
    → IsI64 (a +ℤ b)
    → neg_part a ≤ v + pos_part a
    → v + pos_part a ≤ u64_max
    → neg_part a + neg_part b ≤ v + pos_part a + pos_part b
    → v + pos_part a + pos_part b ≤ u64_max
    → shift v (saturating_add_i64 a b) ≡ shift (shift v a) b
unfolding shift
shift-plus v a b i h k l m = ground (arith, saturating_add_i64_id a b i, +ℤ_parts a b)

neg_i64-diff : (old new : ℕ) → Near old new → Near new old → neg_i64 (diff old new) ≡ diff new old
unfolding neg_i64 diff clamp_i64
neg_i64-diff old new h k = ground arith

diff-eq-zero : (old new : ℕ) → (diff old new ≡ pos 0) ↔ (old ≡ new)
unfolding diff clamp_i64
diff-eq-zero old new = (λ e. ground arith, λ e. ground arith)

-- The difference of two tallies, applied to the older one, gives the newer one, where the newer
-- one's counters are `u64` and the differences are `i64`.
pub apply-between :
    (old new : Tally) → IsTally new → AreNear old new → apply old (between old new) ≡ new
unfolding apply between
apply-between old new v n = ground (
  arith,
  shift-diff old.files new.files v.files n.files,
  shift-diff old.dirs new.dirs v.dirs n.dirs,
  shift-diff old.symlinks new.symlinks v.symlinks n.symlinks,
  shift-diff old.blocks new.blocks v.blocks n.blocks,
  shift-diff old.apparent new.apparent v.apparent n.apparent,
)

-- Whatever the counters are, a difference stays an `i64`.
pub between-IsDelta : (old new : Tally) → IsDelta (between old new)
unfolding between
between-IsDelta old new = record {
  files = diff-IsI64 _ _;
  dirs = diff-IsI64 _ _;
  symlinks = diff-IsI64 _ _;
  blocks = diff-IsI64 _ _;
  apparent = diff-IsI64 _ _;
}

pub plus-IsDelta : (d e : Delta) → IsDelta (plus d e)
unfolding plus
plus-IsDelta d e = record {
  files = saturating_add_i64-IsI64 _ _;
  dirs = saturating_add_i64-IsI64 _ _;
  symlinks = saturating_add_i64-IsI64 _ _;
  blocks = saturating_add_i64-IsI64 _ _;
  apparent = saturating_add_i64-IsI64 _ _;
}

-- Applying any difference to a tally of `u64` counters leaves `u64` counters.
pub apply-IsTally : (t : Tally) (d : Delta) → IsTally t → IsTally (apply t d)
unfolding apply
apply-IsTally t d v = record {
  files = shift-le _ _ v.files;
  dirs = shift-le _ _ v.dirs;
  symlinks = shift-le _ _ v.symlinks;
  blocks = shift-le _ _ v.blocks;
  apparent = shift-le _ _ v.apparent;
}

-- `is_zero` holds exactly of the difference with nothing in it.
pub is_zero_iff : (d : Delta) → (is_zero d ≡ true) ↔ (d ≡ zero_delta)
unfolding is_zero
is_zero_iff d = (λ h. ground arith, λ h. ground arith)

-- A difference is zero exactly between equal tallies.
pub is_zero-between : (old new : Tally) → (is_zero (between old new) ≡ true) ↔ (old ≡ new)
unfolding between
is_zero-between old new = (λ h. same ((is_zero_iff _).0 h), λ e. (is_zero_iff _).1 (none_of e))
  where
    same : between old new ≡ zero_delta → old ≡ new
    same h = ground (
      arith,
      (diff-eq-zero old.files new.files).0,
      (diff-eq-zero old.dirs new.dirs).0,
      (diff-eq-zero old.symlinks new.symlinks).0,
      (diff-eq-zero old.blocks new.blocks).0,
      (diff-eq-zero old.apparent new.apparent).0,
    )

    none_of : old ≡ new → between old new ≡ zero_delta
    none_of e = ground (
      arith,
      (diff-eq-zero old.files new.files).1,
      (diff-eq-zero old.dirs new.dirs).1,
      (diff-eq-zero old.symlinks new.symlinks).1,
      (diff-eq-zero old.blocks new.blocks).1,
      (diff-eq-zero old.apparent new.apparent).1,
    )

-- The difference the other way round is the negated one, where both are `i64`.
pub negate-between :
    (old new : Tally)
    → AreNear old new
    → AreNear new old
    → negate (between old new) ≡ between new old
unfolding negate between
negate-between old new n m = ground (
  arith,
  neg_i64-diff old.files new.files n.files m.files,
  neg_i64-diff old.dirs new.dirs n.dirs m.dirs,
  neg_i64-diff old.symlinks new.symlinks n.symlinks m.symlinks,
  neg_i64-diff old.blocks new.blocks n.blocks m.blocks,
  neg_i64-diff old.apparent new.apparent n.apparent m.apparent,
)

-- Where the counters of two tallies are `u64` and their differences both ways are `i64`: the
-- difference, applied to the older tally, is undone by its negation.
pub apply-negate :
    (old new : Tally)
    → IsTally old
    → IsTally new
    → AreNear old new
    → AreNear new old
    → apply (apply old (between old new)) (negate (between old new)) ≡ old
apply-negate old new v w n m =
    ap (λ t. apply t (negate (between old new))) (apply-between old new w n)
    ∙ (ap (apply new) (negate-between old new n m) ∙ apply-between new old v m)
