-- ===== src/Crds/Defaults/Collisions/Laws.antt =====
-- When the collision checks of crates/servarr-crds/src/v1alpha1/defaults.rs accept.
use servarr_operator.Prelude.{
  String, [], >>=-eq-ok, ◌≡◌, refl, ◌↔◌, false, Option, none, some, List, map, arith, Distinct, ok,
}
use servarr_operator.Prelude.Repeats.{find_repeat, find_repeat_iff}
use servarr_operator.Crds.Types.Persistence.{PvcVolume, NfsMount, PersistenceSpec}
use servarr_operator.Crds.Defaults.Paths.{has_parent_segment}
use servarr_operator.Crds.Defaults.Collisions.{
  PersistenceError, duplicate_volume, duplicate_nfs_mount, conclude, volume_key, pvc_name,
  mount_name, path_collision, path_key, path_entries, find_mount_path_collision, name_collision,
  name_entries, find_volume_name_collision, check_duplicate_volumes,
  validate_no_duplicate_names_in_override, validate_no_parent_segment,
}

-- A check by the loop accepts exactly if the keys are pairwise different.
module _ {A : Type 0} (key : A → String) (report : A → A → PersistenceError) where
  none_of_conclude : (o : Option (A × A)) → conclude report o ≡ ok tt → o ≡ none
  none_of_conclude none h = refl
  none_of_conclude (some pair) h = let (prior, e) = pair in cc

  conclude_iff :
      (es : List A) → (conclude report (find_repeat key [] es) ≡ ok tt) ↔ Distinct (map key es)
  conclude_iff es = (
    λ h. (find_repeat_iff key es).0 (none_of_conclude (find_repeat key [] es) h),
    λ d. rw ((find_repeat_iff key es).1 d),
  )

pub find_mount_path_collision-path_entries :
    (volumes : List PvcVolume) (nfs_mounts : List NfsMount) (reserved : List (String × String))
    → (find_mount_path_collision volumes nfs_mounts reserved ≡ ok tt)
      ↔ Distinct (map path_key (path_entries volumes nfs_mounts reserved))
unfolding find_mount_path_collision
find_mount_path_collision-path_entries volumes nfs_mounts reserved =
    conclude_iff path_key path_collision (path_entries volumes nfs_mounts reserved)

pub find_volume_name_collision-name_entries :
    (volumes : List PvcVolume) (nfs_mounts : List NfsMount) (reserved_names : List String)
    → (find_volume_name_collision volumes nfs_mounts reserved_names ≡ ok tt)
      ↔ Distinct (map volume_key (name_entries volumes nfs_mounts reserved_names))
unfolding find_volume_name_collision
find_volume_name_collision-name_entries volumes nfs_mounts reserved_names =
    conclude_iff volume_key name_collision (name_entries volumes nfs_mounts reserved_names)

-- The check on one override accepts exactly if its volumes have different names, and its NFS
-- mounts too.
pub validate_no_duplicate_names_in_override_iff :
    (spec : PersistenceSpec)
    → (validate_no_duplicate_names_in_override spec ≡ ok tt)
      ↔ (Distinct (map pvc_name spec.volumes) × Distinct (map mount_name spec.nfs_mounts))
unfolding validate_no_duplicate_names_in_override
validate_no_duplicate_names_in_override_iff spec =
    let volumes_iff = conclude_iff pvc_name (λ _ v. duplicate_volume v.name) spec.volumes in
    let mounts_iff = conclude_iff mount_name (λ _ m. duplicate_nfs_mount m.name) spec.nfs_mounts in
    (
      λ h.
          let (u, first, second) = >>=-eq-ok (check_duplicate_volumes spec.volumes) _ h in
          (volumes_iff.0 first, mounts_iff.0 second),
      λ d. rw (volumes_iff.1 d.0) (mounts_iff.1 d.1),
    )

-- The check on one path accepts exactly if no segment of it is `..`.
pub validate_no_parent_segment_iff :
    (path : String) → (validate_no_parent_segment path ≡ ok tt) ↔ (has_parent_segment path ≡ false)
unfolding validate_no_parent_segment
validate_no_parent_segment_iff path = (λ h. ground arith, λ h. rw h)
