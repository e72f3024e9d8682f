-- ===== src/Config.antt =====
-- src/config.rs: the configuration as it is read, and a target as it is resolved. Texts are bytes,
-- durations nanoseconds. A path is what `Path::components` makes of it: whether it is absolute,
-- and the names. Reading the YAML text is left to its library; its result is a value of `Config`.
pub mod Duration
pub mod Resolve
pub mod Validate
use storage_harvester.Base.{ℕ, Bool, Option, none, List, [], ◌∷◌, true, false}
use storage_harvester.Base.Bytes.{Bytes, text}

pub record FilePath : Type 0 where
  pub absolute : Bool
  pub names : List Bytes

pub data ReportMode : Type 0 where
  tree leaves : ReportMode

pub data SizeMode : Type 0 where
  blocks apparent : SizeMode

pub record ThumbnailConfig : Type 0 where
  pub cache_dir : FilePath
  pub cache_mib : ℕ
  pub ffmpeg : FilePath
  pub ffprobe : FilePath
  pub jobs : ℕ

pub record PlexConfig : Type 0 where
  pub url : Bytes
  pub token_env : Bytes
  pub paths : List (Bytes × Bytes)

pub record CapacityQuery : Type 0 where
  pub path : FilePath
  pub used : Bytes
  pub size : Bytes

pub record AtlasConfig : Type 0 where
  pub peers : List Bytes
  pub metrics_url : Option Bytes
  pub capacity_queries : List CapacityQuery
  pub thumbnails : ThumbnailConfig
  pub plex : Option PlexConfig

pub record LiveConfig : Type 0 where
  pub enabled : Bool
  pub btrfs_poll_interval : ℕ
  pub min_relist_interval : ℕ
  pub block_poll_interval : ℕ
  pub synotify : Bool

pub record Defaults : Type 0 where
  pub scanner : Bytes
  pub baseline_interval : ℕ
  pub timeout : ℕ
  pub no_cross_filesystem : Bool
  pub follow_symlinks : Bool
  pub report_mode : ReportMode
  pub report_depth : ℕ
  pub max_depth : Option ℕ
  pub scan_threads : Option ℕ
  pub size_modes : List SizeMode
  pub exclude : List Bytes
  pub tree_max_directories : ℕ
  pub live : Bool
  pub sharing_interval : Option ℕ
  pub thumbnails : Bool

pub record TargetConfig : Type 0 where
  pub name : Bytes
  pub target_type : Bytes
  pub path : FilePath
  pub pool : Option Bytes
  pub pve_config : Option FilePath
  pub scanner : Option Bytes
  pub baseline_interval : Option ℕ
  pub timeout : Option ℕ
  pub no_cross_filesystem : Option Bool
  pub follow_symlinks : Option Bool
  pub report_mode : Option ReportMode
  pub report_depth : Option ℕ
  pub max_depth : Option (Option ℕ)
  pub scan_threads : Option ℕ
  pub size_modes : Option (List SizeMode)
  pub exclude : List Bytes
  pub tree_max_directories : Option ℕ
  pub live : Option Bool
  pub sharing_interval : Option (Option ℕ)
  pub thumbnails : Option Bool
  pub labels : List (Bytes × Bytes)

pub record Config : Type 0 where
  pub host_root : FilePath
  pub metrics_path : Bytes
  pub log_level : Bytes
  pub host : Option Bytes
  pub display_name : Option Bytes
  pub atlas : AtlasConfig
  pub live : LiveConfig
  pub defaults : Defaults
  pub targets : List TargetConfig

pub record LvmTarget : Type 0 where
  pub vg : Bytes
  pub pool : Bytes
  pub pve_config : FilePath

pub record Target : Type 0 where
  pub name : Bytes
  pub target_type : Bytes
  pub scanner : Bytes
  pub display_path : FilePath
  pub scan_path : FilePath
  pub baseline_interval : ℕ
  pub timeout : ℕ
  pub no_cross_filesystem : Bool
  pub follow_symlinks : Bool
  pub report_mode : ReportMode
  pub report_depth : ℕ
  pub max_depth : Option ℕ
  pub scan_threads : ℕ
  pub size_modes : List SizeMode
  pub exclude : List Bytes
  pub tree_max_directories : ℕ
  pub live : Bool
  pub sharing_interval : Option ℕ
  pub thumbnails : Bool
  pub collect_handles : Bool
  pub lvm : Option LvmTarget
  pub labels : List (Bytes × Bytes)

-- `Defaults::default()` and the functions that it calls.
abbrev pub second : ℕ
second = 1000000000

abbrev pub default_defaults : Defaults
default_defaults = record {
  scanner = text "native";
  baseline_interval = 60000000000;
  timeout = 30000000000;
  no_cross_filesystem = true;
  follow_symlinks = false;
  report_mode = tree;
  report_depth = 1;
  max_depth = none;
  scan_threads = none;
  size_modes = blocks ∷ [];
  exclude = [];
  tree_max_directories = 500000;
  live = true;
  sharing_interval = none;
  thumbnails = false;
}

-- Why a configuration is refused: each message of the source.
pub data Refusal : Type 0 where
  pool_for_lvm pool_missing unsupported_type lvm_scanner unsupported_scanner path_not_absolute
        depth_too_small :
      Refusal
  metrics_path no_targets scan_threads peer_url thumbnail_jobs plex_url plex_path zero_poll :
      Refusal
  name_empty name_characters name_twice zero_interval zero_sharing zero_timeout no_size_modes :
      Refusal
  label_invalid label_builtin : Refusal

pub data Outcome (A : Type 0) : Type 0 where
  ok : A → Outcome A
  refused : Refusal → Outcome A

infixl 5 ◌>>=◌
infixr 6 ◌>>◌
abbrev pub ◌>>=◌ : {A B : Type 0} → Outcome A → (A → Outcome B) → Outcome B
ok a >>= f = f a
refused r >>= f = refused r

abbrev pub ◌>>◌ : {B : Type 0} → Outcome (Unit {0}) → Outcome B → Outcome B
m >> k = m >>= λ _. k

-- `if test { bail!(why) }`.
abbrev pub bail_if : Bool → Refusal → Outcome (Unit {0})
bail_if true why = refused why
bail_if false why = ok tt
