-- ===== src/Examples/Defaults.antt =====
-- The theorems on the CRD crate at concrete inputs.
use servarr_operator.Prelude.{
  String, List, ◌≡◌, ◌↔◌, refl, false, not, ◌&&◌, ◌||◌, none, some, [], ◌∷◌, ◌==◌, map, contains,
  Distinct, or_option, ok, if◌then◌else◌,
}
use servarr_operator.Crds.AppType
use servarr_operator.Crds.Types.Persistence.{merge_with}
use servarr_operator.Crds.Types.Persistence.Merge.{find_mount, mount_names, merge_with_mounts}
use servarr_operator.Crds.Condition.{set_condition}
use servarr_operator.Crds.Condition.Laws.{find_condition, type_of, set_condition_lem}
use servarr_operator.Crds.Defaults.Collisions.{validate_no_parent_segment}
use servarr_operator.Crds.Defaults.Collisions.Laws.{validate_no_parent_segment_iff}
use servarr_operator.Crds.Defaults.Paths.{has_parent_segment}
use servarr_operator.Crds.Defaults.Resolve.{
  effective, has_volume, is_removed, merge_override, resolve_persistence_for_spec,
}
use servarr_operator.Crds.Defaults.Resolve.Laws.{
  IsSound, has_volume-effective, resolve_persistence_for_spec_iff,
}
use servarr_operator.Crds.Defaults.Compiled.{try_for_app, validate_all}
use servarr_operator.Crds.Defaults.Compiled.Laws.{HasDefaults, validate_all_sound}
use servarr_operator.Examples.Data.{compiled, override, spec_of, image_defaults, condition, status}

merge_with_mounts_example :
    Distinct (mount_names (merge_with override compiled).nfs_mounts)
    × (find_mount "media" (merge_with override compiled).nfs_mounts
        ≡ or_option
            (find_mount "media" override.nfs_mounts)
            (find_mount "media" compiled.nfs_mounts))
merge_with_mounts_example = merge_with_mounts override compiled "media"

types-Distinct : Distinct (map type_of status.conditions)
unfolding contains
types-Distinct = (refl, (refl, tt))

set_condition_example :
    Distinct (map type_of (set_condition (condition "Ready" "False") status).conditions)
    × (find_condition "Degraded" (set_condition (condition "Ready" "False") status).conditions ≡ (
        if "Ready" == "Degraded"
        then some (condition "Ready" "False")
        else find_condition "Degraded" status.conditions))
    × (record (set_condition (condition "Ready" "False") status) { conditions = status.conditions }
        ≡ status)
set_condition_example =
    set_condition_lem (condition "Ready" "False") status "Degraded" types-Distinct

abbrev reserved : List (String × String)
reserved = ("/config/", "config") ∷ []

validate_no_parent_segment_example :
    (validate_no_parent_segment "/config/../etc" ≡ ok tt)
    ↔ (has_parent_segment "/config/../etc" ≡ false)
validate_no_parent_segment_example = validate_no_parent_segment_iff "/config/../etc"

has_volume-effective_example : has_volume "config" (effective compiled (some override)).volumes ≡ (
    not (is_removed (some override) "config")
    && (has_volume "config" (merge_override (some override) compiled).volumes
        || has_volume "config" compiled.volumes))
has_volume-effective_example = has_volume-effective compiled (some override) "config"

resolve_persistence_for_spec_example :
    (resolve_persistence_for_spec compiled (spec_of AppType.sonarr (some override) none)
      ≡ ok (effective compiled (some override)))
    ↔ (IsSound (spec_of AppType.sonarr (some override) none) (effective compiled (some override))
        × (effective compiled (some override) ≡ effective compiled (some override)))
resolve_persistence_for_spec_example =
    resolve_persistence_for_spec_iff compiled (spec_of AppType.sonarr (some override) none)
      (effective compiled (some override))

all_valid : validate_all image_defaults ≡ ok tt
unfolding validate_all try_for_app
all_valid = refl

validate_all_example : HasDefaults image_defaults AppType.subgen
validate_all_example = validate_all_sound image_defaults all_valid AppType.subgen
