-- ===== src/Tree/Tally.antt =====
-- src/tree.rs: `Tally`, what sits in a directory, and `Delta`, a signed difference of two
-- tallies. The counters are `u64`, the differences `i64`; a release build is modelled, where a
-- plain `+` wraps round.
pub mod Laws
use storage_harvester.Base.{ℕ, ◌-◌, ◌≡◌, Bool, ◌&&◌, ◌==◌, if◌then◌else◌}
use storage_harvester.Base.Int.{
  ℤ, pos, negsuc, pos_part, neg_part, sub_ℕ, clamp_i64, saturating_add_i64, neg_i64, eqb_ℤ, ltb_ℤ,
  saturating_add, saturating_sub, wrapping_add,
}

pub record Tally : Type 0 where
  pub files : ℕ
  pub dirs : ℕ
  pub symlinks : ℕ
  pub blocks : ℕ
  pub apparent : ℕ

-- `Tally::default()`.
abbrev pub empty : Tally
empty = record { files = 0; dirs = 0; symlinks = 0; blocks = 0; apparent = 0 }

unfoldable pub add_size : Tally → ℕ → ℕ → Tally
add_size t blocks apparent = record t {
  blocks = saturating_add t.blocks blocks;
  apparent = saturating_add t.apparent apparent;
}

unfoldable pub add : Tally → Tally → Tally
unfolding add_size
add t other =
    add_size
      (record t {
        files = wrapping_add t.files other.files;
        dirs = wrapping_add t.dirs other.dirs;
        symlinks = wrapping_add t.symlinks other.symlinks;
      })
      other.blocks other.apparent

unfoldable pub is_empty : Tally → Bool
is_empty t = t.files == 0 && t.dirs == 0 && t.symlinks == 0 && t.blocks == 0 && t.apparent == 0

pub record Delta : Type 0 where
  pub files : ℤ
  pub dirs : ℤ
  pub symlinks : ℤ
  pub blocks : ℤ
  pub apparent : ℤ

-- `Delta::default()`.
abbrev pub zero_delta : Delta
zero_delta = record {
  files = pos 0;
  dirs = pos 0;
  symlinks = pos 0;
  blocks = pos 0;
  apparent = pos 0;
}

-- `self += delta` on one counter, clamped at zero (and at `u64::MAX`).
unfoldable pub shift : ℕ → ℤ → ℕ
shift value by =
    if ltb_ℤ by (pos 0)
    then saturating_sub value (neg_part by)
    else saturating_add value (pos_part by)

unfoldable pub apply : Tally → Delta → Tally
apply t d = record {
  files = shift t.files d.files;
  dirs = shift t.dirs d.dirs;
  symlinks = shift t.symlinks d.symlinks;
  blocks = shift t.blocks d.blocks;
  apparent = shift t.apparent d.apparent;
}

unfoldable pub diff : ℕ → ℕ → ℤ
diff old new = clamp_i64 (sub_ℕ new old)

unfoldable pub between : Tally → Tally → Delta
between old new = record {
  files = diff old.files new.files;
  dirs = diff old.dirs new.dirs;
  symlinks = diff old.symlinks new.symlinks;
  blocks = diff old.blocks new.blocks;
  apparent = diff old.apparent new.apparent;
}

unfoldable pub plus : Delta → Delta → Delta
plus d other = record {
  files = saturating_add_i64 d.files other.files;
  dirs = saturating_add_i64 d.dirs other.dirs;
  symlinks = saturating_add_i64 d.symlinks other.symlinks;
  blocks = saturating_add_i64 d.blocks other.blocks;
  apparent = saturating_add_i64 d.apparent other.apparent;
}

unfoldable pub negate : Delta → Delta
negate d = record {
  files = neg_i64 d.files;
  dirs = neg_i64 d.dirs;
  symlinks = neg_i64 d.symlinks;
  blocks = neg_i64 d.blocks;
  apparent = neg_i64 d.apparent;
}

unfoldable pub is_zero : Delta → Bool
is_zero d =
    eqb_ℤ d.files (pos 0)
    && eqb_ℤ d.dirs (pos 0)
    && eqb_ℤ d.symlinks (pos 0)
    && eqb_ℤ d.blocks (pos 0)
    && eqb_ℤ d.apparent (pos 0)

-- `Delta::from(tally)`.
unfoldable pub from_tally : Tally → Delta
from_tally t = between empty t
