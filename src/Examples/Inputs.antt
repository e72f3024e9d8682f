-- ===== src/Examples/Inputs.antt =====
-- A configuration, a target of it, and a live store with that target being scanned.
use storage_harvester.Base.{◌*◌, true, false, none, some, List, [], ◌∷◌}
use storage_harvester.Base.Bytes.{Bytes, text}
use storage_harvester.Config.{
  FilePath, TargetConfig, Config, Target, tree, blocks, second, default_defaults,
}
use storage_harvester.Live.{LiveTarget, LiveStore}
use storage_harvester.Live.Index.{new}
use storage_harvester.Examples.Trees.{sample}

abbrev pub path : List Bytes → FilePath
path names = record { absolute = true; names = names }

abbrev pub sample_target : Target
sample_target = record {
  name = text "data";
  target_type = text "filesystem";
  scanner = text "native";
  display_path = path (text "data" ∷ []);
  scan_path = path (text "host" ∷ text "data" ∷ []);
  baseline_interval = 60 * second;
  timeout = 30 * second;
  no_cross_filesystem = true;
  follow_symlinks = false;
  report_mode = tree;
  report_depth = 1;
  max_depth = none;
  scan_threads = 4;
  size_modes = blocks ∷ [];
  exclude = [];
  tree_max_directories = 500000;
  live = true;
  sharing_interval = none;
  thumbnails = false;
  collect_handles = false;
  lvm = none;
  labels = [];
}

abbrev pub target_config : Bytes → TargetConfig
target_config name = record {
  name = name;
  target_type = text "filesystem";
  path = path (text "data" ∷ []);
  pool = none;
  pve_config = none;
  scanner = none;
  baseline_interval = none;
  timeout = some (5 * second);
  no_cross_filesystem = none;
  follow_symlinks = none;
  report_mode = none;
  report_depth = some 2;
  max_depth = some (some 3);
  scan_threads = none;
  size_modes = none;
  exclude = [];
  tree_max_directories = none;
  live = none;
  sharing_interval = none;
  thumbnails = none;
  labels = (text "team", text "x") ∷ [];
}

abbrev pub sample_config : Config
sample_config = record {
  host_root = path (text "host" ∷ []);
  metrics_path = text "/metrics";
  log_level = text "info";
  host = none;
  display_name = none;
  atlas = record {
    peers = text "http://nas" ∷ [];
    metrics_url = none;
    capacity_queries = [];
    thumbnails = record {
      cache_dir = path (text "cache" ∷ []);
      cache_mib = 512;
      ffmpeg = path (text "ffmpeg" ∷ []);
      ffprobe = path (text "ffprobe" ∷ []);
      jobs = 1;
    };
    plex = none;
  };
  live = record {
    enabled = true;
    btrfs_poll_interval = 5 * second;
    min_relist_interval = second;
    block_poll_interval = 60 * second;
    synotify = false;
  };
  defaults = default_defaults;
  targets = target_config (text "a") ∷ target_config (text "b") ∷ [];
}

abbrev pub scanned_target : LiveTarget
scanned_target = record {
  index = 0;
  target = sample_target;
  fsid = none;
  state = some (new sample 1 100);
  source = some (text "fanotify");
  scanning = true;
  during_scan = [];
  rescans_requested = 0;
}

abbrev pub sample_store : LiveStore
sample_store = record {
  host = text "nas";
  targets = scanned_target ∷ [];
  recent = [];
  queue = record { pending = []; cooldown = [] };
  signals = 0;
}
