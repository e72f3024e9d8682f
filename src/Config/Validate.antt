-- ===== src/Config/Validate.antt =====
-- src/config.rs: `validate`, its checks in the order of the source.
pub mod Guarantees
use storage_harvester.Base.{
  ℕ, zero, suc, ◌≤◌, ◌≡◌, Bool, true, false, not, ◌&&◌, ◌||◌, ◌==◌, ltb, leb, Option, none, some,
  List, [], ◌∷◌, if◌then◌else◌,
}
use storage_harvester.Base.Bytes.{Bytes, text, eqb}
use storage_harvester.Config.{
  FilePath, SizeMode, ThumbnailConfig, PlexConfig, AtlasConfig, LiveConfig, Defaults, TargetConfig,
  Config, Outcome, ok, refused, ◌>>=◌, ◌>>◌, bail_if, path_not_absolute, metrics_path, no_targets,
  scan_threads, peer_url, thumbnail_jobs, plex_url, plex_path, zero_poll, name_empty,
  name_characters, name_twice, zero_interval, zero_sharing, zero_timeout, no_size_modes,
  label_invalid, label_builtin,
}
use storage_harvester.Config.Resolve.{is_nil}

-- `str::starts_with`.
unfoldable pub starts_with : Bytes → Bytes → Bool
starts_with value [] = true
starts_with [] (p ∷ ps) = false
starts_with (b ∷ bs) (p ∷ ps) = b == p && starts_with bs ps

abbrev pub is_letter : ℕ → Bool
is_letter b = (leb 65 b && leb b 90) || (leb 97 b && leb b 122)

abbrev pub is_alphanumeric : ℕ → Bool
is_alphanumeric b = is_letter b || (leb 48 b && leb b 57)

unfoldable pub all_bytes : (ℕ → Bool) → Bytes → Bool
all_bytes test [] = true
all_bytes test (b ∷ bs) = test b && all_bytes test bs

abbrev pub is_name_byte : ℕ → Bool
is_name_byte b = is_alphanumeric b || b == 95 || b == 45 || b == 46

abbrev pub max_scan_threads : ℕ
max_scan_threads = 256

unfoldable pub check_scan_threads : Option ℕ → Outcome (Unit {0})
check_scan_threads none = ok tt
check_scan_threads (some threads) =
    bail_if (not (leb 1 threads && leb threads max_scan_threads)) scan_threads

unfoldable pub check_peers : List Bytes → Outcome (Unit {0})
check_peers [] = ok tt
check_peers (peer ∷ peers) =
    bail_if (not (starts_with peer (text "http://") || starts_with peer (text "https://"))) peer_url
    >> check_peers peers

abbrev pub is_rooted : Bytes → Bool
is_rooted path = starts_with path (text "/")

unfoldable pub check_plex_paths : List (Bytes × Bytes) → Outcome (Unit {0})
check_plex_paths [] = ok tt
check_plex_paths ((from, to) ∷ paths) =
    bail_if (not (is_rooted from) || not (is_rooted to)) plex_path >> check_plex_paths paths

unfoldable pub check_plex : Option PlexConfig → Outcome (Unit {0})
check_plex none = ok tt
check_plex (some plex) =
    bail_if (not (starts_with plex.url (text "http://"))) plex_url >> check_plex_paths plex.paths

-- `BUILTIN_LABELS`.
abbrev pub builtin_labels : List Bytes
builtin_labels =
    text "target"
    ∷ text "target_type"
    ∷ text "path"
    ∷ text "parent"
    ∷ text "node"
    ∷ text "depth"
    ∷ text "size_mode"
    ∷ text "backend"
    ∷ text "entry_type"
    ∷ text "issue"
    ∷ []

unfoldable pub contains : List Bytes → Bytes → Bool
contains [] key = false
contains (l ∷ ls) key = eqb l key || contains ls key

abbrev pub starts_name : Bytes → Bool
starts_name [] = false
starts_name (b ∷ bs) = is_letter b || b == 95

unfoldable pub is_label_name : Bytes → Bool
is_label_name key =
    starts_name key
    && all_bytes (λ b. is_alphanumeric b || b == 95) key
    && not (starts_with key (text "__"))

unfoldable pub check_labels : List (Bytes × Bytes) → Outcome (Unit {0})
check_labels [] = ok tt
check_labels ((key, value) ∷ labels) =
    bail_if (not (is_label_name key)) label_invalid
    >> bail_if (contains builtin_labels key) label_builtin
    >> check_labels labels

abbrev pub is_zero_some : Option ℕ → Bool
is_zero_some none = false
is_zero_some (some d) = d == 0

abbrev pub is_zero_some_some : Option (Option ℕ) → Bool
is_zero_some_some none = false
is_zero_some_some (some d) = is_zero_some d

abbrev pub is_empty_some : Option (List SizeMode) → Bool
is_empty_some none = false
is_empty_some (some modes) = is_nil modes

-- One round of the loop over the targets; `names` are those of the targets before.
unfoldable pub check_target : List Bytes → TargetConfig → Outcome (Unit {0})
check_target names t =
    bail_if (is_nil t.name) name_empty
    >> bail_if (not (all_bytes is_name_byte t.name)) name_characters
    >> bail_if (contains names t.name) name_twice
    >> bail_if (not t.path.absolute) path_not_absolute
    >> bail_if (is_zero_some t.baseline_interval) zero_interval
    >> bail_if (is_zero_some_some t.sharing_interval) zero_sharing
    >> bail_if (is_zero_some t.timeout) zero_timeout
    >> check_scan_threads t.scan_threads
    >> bail_if (is_empty_some t.size_modes) no_size_modes
    >> check_labels t.labels

unfoldable pub check_targets : List Bytes → List TargetConfig → Outcome (Unit {0})
check_targets names [] = ok tt
check_targets names (t ∷ ts) = check_target names t >> check_targets (t.name ∷ names) ts

unfoldable pub validate : Config → Outcome (Unit {0})
validate c =
    bail_if (is_nil c.metrics_path || not (starts_with c.metrics_path (text "/"))) metrics_path
    >> bail_if (is_nil c.targets) no_targets
    >> check_scan_threads c.defaults.scan_threads
    >> check_peers c.atlas.peers
    >> bail_if (c.atlas.thumbnails.jobs == 0) thumbnail_jobs
    >> check_plex c.atlas.plex
    >> bail_if (c.live.btrfs_poll_interval == 0) zero_poll
    >> bail_if (c.live.block_poll_interval == 0) zero_poll
    >> check_targets [] c.targets
