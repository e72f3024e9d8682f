-- ===== src/Config/Resolve.antt =====
-- src/config.rs: `resolve_target`: a target's own settings over the defaults.
use mathlib.Core.Option.{get_or}
use storage_harvester.Base.{
  ℕ, Bool, true, false, not, ◌&&◌, ◌||◌, ◌==◌, ltb, Option, none, some, List, [], ◌∷◌, ◌++◌,
  if◌then◌else◌,
}
use storage_harvester.Base.Bytes.{Bytes, text, eqb}
use storage_harvester.Config.{
  FilePath, Defaults, TargetConfig, Config, LvmTarget, Target, Outcome, ok, refused, ◌>>=◌, ◌>>◌,
  bail_if, pool_for_lvm, pool_missing, unsupported_type, lvm_scanner, unsupported_scanner,
  path_not_absolute, depth_too_small,
}

-- `str::split_once('/')`.
unfoldable pub split_slash : Bytes → Option (Bytes × Bytes)
split_slash [] = none
split_slash (b ∷ bs) =
    let rest = split_slash bs in
    if b == 47 then some ([], bs) else elim rest [ none ↦ none | some (l, r) ↦ some (b ∷ l, r) ]

unfoldable pub has_slash : Bytes → Bool
has_slash [] = false
has_slash (b ∷ bs) = b == 47 || has_slash bs

abbrev pub is_nil {ℓ} : {A : Type ℓ} → List A → Bool
is_nil [] = true
is_nil (b ∷ bs) = false

abbrev pub is_some {ℓ} : {A : Type ℓ} → Option A → Bool
is_some none = false
is_some (some a) = true

-- `Path::join` and `strip_prefix("/")`: an absolute path below another root.
abbrev pub join_host_root : FilePath → FilePath → FilePath
join_host_root root path = record root { names = root.names ++ path.names }

abbrev etc_pve : FilePath
etc_pve = record { absolute = true; names = text "etc" ∷ text "pve" ∷ [] }

-- `<volume group>/<thin pool>`.
unfoldable pub pool_of : Bytes → Option (Bytes × Bytes)
pool_of pool = elim (split_slash pool) [
  | none ↦ none
  | some (vg, lv) ↦
      if not (is_nil vg) && not (is_nil lv) && not (has_slash lv) then some (vg, lv) else none
]

unfoldable pub lvm_of : Config → TargetConfig → Outcome (Option LvmTarget)
lvm_of c t =
    if eqb t.target_type (text "filesystem")
    then (bail_if (is_some t.pool || is_some t.pve_config) pool_for_lvm >> ok none)
    else if eqb t.target_type (text "lvm_thin")
    then elim (pool_of (get_or t.pool [])) [
      | none ↦ refused pool_missing
      | some (vg, lv) ↦ ok (
          some (record {
            vg = vg;
            pool = lv;
            pve_config = join_host_root c.host_root (get_or t.pve_config etc_pve);
          }))
    ]
    else refused unsupported_type

unfoldable pub scanner_of : Defaults → TargetConfig → Option LvmTarget → Outcome Bytes
scanner_of d t (some lvm) = elim t.scanner [
  | none ↦ ok (text "lvm")
  | some other ↦ if eqb other (text "lvm") then ok (text "lvm") else refused lvm_scanner
]
scanner_of d t none =
    let scanner = get_or t.scanner d.scanner in
    bail_if (not (eqb scanner (text "native"))) unsupported_scanner >> ok scanner

-- A cap on the depth below the reported depth is refused.
abbrev pub cap_too_small : Option ℕ → ℕ → Bool
cap_too_small none report_depth = false
cap_too_small (some cap) report_depth = ltb cap report_depth

abbrev pub first_some : Option ℕ → Option ℕ → Option ℕ
first_some (some a) b = some a
first_some none b = b

-- `default_threads` is what `default_scan_threads` finds on the machine.
unfoldable pub resolve_target : ℕ → Config → TargetConfig → Outcome Target
resolve_target default_threads c t =
    let d = c.defaults in
    let report_depth = get_or t.report_depth d.report_depth in
    let max_depth = get_or t.max_depth d.max_depth in
    lvm_of c t >>= λ lvm. scanner_of d t lvm >>= λ scanner.
    bail_if (not t.path.absolute) path_not_absolute
    >> bail_if (cap_too_small max_depth report_depth) depth_too_small
    >> ok (record {
      name = t.name;
      target_type = t.target_type;
      scanner = scanner;
      display_path = t.path;
      scan_path = join_host_root c.host_root t.path;
      baseline_interval = get_or t.baseline_interval d.baseline_interval;
      timeout = get_or t.timeout d.timeout;
      no_cross_filesystem = get_or t.no_cross_filesystem d.no_cross_filesystem;
      follow_symlinks = get_or t.follow_symlinks d.follow_symlinks;
      report_mode = get_or t.report_mode d.report_mode;
      report_depth = report_depth;
      max_depth = max_depth;
      scan_threads = get_or (first_some t.scan_threads d.scan_threads) default_threads;
      size_modes = get_or t.size_modes d.size_modes;
      exclude = d.exclude ++ t.exclude;
      tree_max_directories = get_or t.tree_max_directories d.tree_max_directories;
      live = get_or t.live d.live;
      sharing_interval = get_or t.sharing_interval d.sharing_interval;
      thumbnails = not (is_some lvm) && get_or t.thumbnails d.thumbnails;
      collect_handles = false;
      lvm = lvm;
      labels = t.labels;
    })

unfoldable pub resolve_all : ℕ → Config → List TargetConfig → Outcome (List Target)
resolve_all threads c [] = ok []
resolve_all threads c (t ∷ ts) =
    resolve_target threads c t >>= λ r. resolve_all threads c ts >>= λ rs. ok (r ∷ rs)

unfoldable pub resolved_targets : ℕ → Config → Outcome (List Target)
resolved_targets threads c = resolve_all threads c c.targets
