-- ===== src/Examples/Settings.antt =====
-- src/config.rs and src/cache.rs at concrete inputs.
use storage_harvester.Base.{◌*◌, ◌≡◌, refl, some, List, [], ◌∷◌, All, arith}
use storage_harvester.Base.Bytes.{Bytes, text, eqb}
use storage_harvester.Config.{Target, Outcome, ok, refused, second}
use storage_harvester.Config.Resolve.{resolved_targets}
use storage_harvester.Config.Validate.{validate}
use storage_harvester.Config.Validate.Guarantees.{validate-IsUsable, IsUsable, Unique, AreLabels}
use storage_harvester.Config.Duration.{parse_duration, Parsed, nanos}
use storage_harvester.Config.Duration.Units.{parse_duration-unit, minutes}
use storage_harvester.Cache.{TargetSnapshot, Store, from_target, get}
use storage_harvester.Cache.History.{
  Event, start, failure, play, Became, play-Became, scans, failures, succeeds,
}
use storage_harvester.Examples.Inputs.{sample_config, sample_target}

abbrev or_nothing : {A : Type 0} → Outcome (List A) → List A
or_nothing (ok a) = a
or_nothing (refused why) = []

abbrev sample_targets : List Target
sample_targets = or_nothing (resolved_targets 8 sample_config)

accepted : validate sample_config ≡ ok tt
unfolding validate storage_harvester.Config.Validate.starts_with
    storage_harvester.Config.Validate.check_scan_threads
    storage_harvester.Config.Validate.check_peers storage_harvester.Config.Validate.check_plex
    storage_harvester.Config.Validate.check_targets storage_harvester.Config.Validate.check_target
    storage_harvester.Config.Validate.all_bytes storage_harvester.Config.Validate.contains
    storage_harvester.Config.Validate.check_labels storage_harvester.Config.Validate.is_label_name
    eqb
accepted = refl

resolved : resolved_targets 8 sample_config ≡ ok sample_targets
unfolding resolved_targets storage_harvester.Config.Resolve.resolve_all
    storage_harvester.Config.Resolve.resolve_target storage_harvester.Config.Resolve.lvm_of eqb
    storage_harvester.Config.Resolve.scanner_of
resolved = refl

validate-IsUsable_example :
    All IsUsable sample_targets
    × Unique sample_config.targets
    × All (λ t. AreLabels t.labels) sample_config.targets
validate-IsUsable_example =
    validate-IsUsable 8 sample_config (omega arith) (omega arith) (omega arith) (omega arith)
      sample_targets accepted resolved

parse_duration-unit_example : parse_duration (text "90m") ≡ nanos (90 * (60 * second))
unfolding storage_harvester.Config.Duration.decimal
parse_duration-unit_example =
    parse_duration-unit 57 (48 ∷ []) minutes (ground arith) (omega arith) (omega arith)

abbrev events : List (Bytes × Event)
events =
    (text "data", start 5)
    ∷ (text "other", failure 6 (text "gone"))
    ∷ (text "data", failure 7 (text "scan timed out after 30s"))
    ∷ []

abbrev sample_snapshots : Store
sample_snapshots = (text "data", from_target sample_target) ∷ []

play-Became_example :
    (t : TargetSnapshot) × (get (text "data") (play events sample_snapshots) ≡ some t)
    × Became
        (from_target sample_target)
        (scans (text "data") events)
        (failures (text "data") events)
        (succeeds (text "data") events)
        t
unfolding get eqb from_target
play-Became_example =
    play-Became (text "data") events sample_snapshots (from_target sample_target) refl
      (omega arith, omega arith, refl)
