-- ===== src/Crds/Defaults/Resolve.antt =====
-- `AppDefaults::resolve_persistence_for_spec` of crates/servarr-crds/src/v1alpha1/defaults.rs.
pub mod Laws
use servarr_operator.Prelude.{
  String, Bool, true, false, not, ◌&&◌, Option, none, some, List, [], ◌∷◌, ◌++◌, ◌==◌, any, filter,
  contains, Result, ok, err, ◌>>=◌, ◌>>◌, if◌then◌else◌, map,
}
use servarr_operator.Crds.Types.Persistence.{PvcVolume, NfsMount, PersistenceSpec, merge_with}
use servarr_operator.Crds.Spec.{ServarrAppSpec}
use servarr_operator.Crds.Defaults.Reserved.{
  operator_reserved_mounts, operator_reserved_volume_names,
}
use servarr_operator.Crds.Defaults.Collisions.{
  PersistenceError, Checked, find_mount_path_collision, find_volume_name_collision,
  validate_no_duplicate_names_in_override, validate_no_parent_segment,
}

-- Whether a volume of that name is in the list.
abbrev pub has_volume : String → List PvcVolume → Bool
has_volume name volumes = any (λ v. v.name == name) volumes

-- The loop that restores each default volume which the merge dropped.
unfoldable pub restore_defaults : List PvcVolume → List PvcVolume → List PvcVolume
restore_defaults volumes [] = volumes
restore_defaults volumes (d ∷ ds) =
    restore_defaults (if has_volume d.name volumes then volumes else volumes ++ d ∷ []) ds

abbrev pub tombstones : Option PersistenceSpec → List String
tombstones none = []
tombstones (some spec) = spec.removed_default_volumes

abbrev pub explicit_volumes : Option PersistenceSpec → List PvcVolume
explicit_volumes none = []
explicit_volumes (some spec) = spec.volumes

-- `is_removed`: a tombstone counts unless the override lists the volume itself.
abbrev pub is_removed : Option PersistenceSpec → String → Bool
is_removed override name =
    contains name (tombstones override) && not (has_volume name (explicit_volumes override))

abbrev check_override : Option PersistenceSpec → Checked
check_override none = ok tt
check_override (some spec) = validate_no_duplicate_names_in_override spec

abbrev pub merge_override : Option PersistenceSpec → PersistenceSpec → PersistenceSpec
merge_override none defaults = defaults
merge_override (some spec) defaults = merge_with spec defaults

-- The volumes and mounts that the checks are run on.
unfoldable pub effective : PersistenceSpec → Option PersistenceSpec → PersistenceSpec
unfolding restore_defaults
effective defaults override =
    let persistence = merge_override override defaults in
    record persistence {
      volumes =
          filter (λ v. not (is_removed override v.name))
            (restore_defaults persistence.volumes defaults.volumes);
    }

-- The loop that keeps each reserved name once.
dedup_onto : List String → List String → List String
dedup_onto reserved_names [] = reserved_names
dedup_onto reserved_names (n ∷ ns) =
    dedup_onto (if contains n reserved_names then reserved_names else reserved_names ++ n ∷ []) ns

abbrev second : (String × String) → String
second (path, name) = name

unfoldable pub reserved_volume_names : ServarrAppSpec → List String
unfolding dedup_onto
reserved_volume_names spec =
    dedup_onto []
      (map second (operator_reserved_mounts spec) ++ operator_reserved_volume_names spec)

-- The two loops over the mount paths.
unfoldable pub check_volume_segments : List PvcVolume → Checked
check_volume_segments [] = ok tt
check_volume_segments (v ∷ vs) =
    let rest = check_volume_segments vs in validate_no_parent_segment v.mount_path >>= λ _. rest

unfoldable pub check_mount_segments : List NfsMount → Checked
check_mount_segments [] = ok tt
check_mount_segments (m ∷ ms) =
    let rest = check_mount_segments ms in validate_no_parent_segment m.mount_path >>= λ _. rest

-- `self` is the persistence of the compiled defaults.
unfoldable pub resolve_persistence_for_spec :
    PersistenceSpec → ServarrAppSpec → Result PersistenceError PersistenceSpec
unfolding check_volume_segments check_mount_segments
resolve_persistence_for_spec self spec =
    let persistence = effective self spec.persistence in
    do
      check_override spec.persistence
      find_mount_path_collision persistence.volumes persistence.nfs_mounts
          (operator_reserved_mounts spec)
      find_volume_name_collision persistence.volumes persistence.nfs_mounts
          (reserved_volume_names spec)
      check_volume_segments persistence.volumes
      check_mount_segments persistence.nfs_mounts
      ok persistence
