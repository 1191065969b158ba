-- ===== src/Crds/Defaults/Resolve/Laws.antt =====
-- What `resolve_persistence_for_spec` of crates/servarr-crds/src/v1alpha1/defaults.rs accepts, and
-- which volumes it returns.
use servarr_operator.Prelude.{
  String, ◌≡◌, ◌↔◌, refl, sym, ◌∙◌, ap, Bool, false, not, ◌&&◌, ◌||◌, Option, none, some, List, [],
  ◌∷◌, ◌++◌, ◌==◌, eq_iff, arith, any-append, filter, map, Distinct, Bool-cases, inl, inr, ok,
  subst, ok-injective, >>=-eq-ok,
}
use servarr_operator.Crds.Types.Persistence.{PvcVolume, NfsMount, PersistenceSpec}
use servarr_operator.Crds.Spec.{ServarrAppSpec}
use servarr_operator.Crds.Defaults.Paths.{has_parent_segment}
use servarr_operator.Crds.Defaults.Reserved.{operator_reserved_mounts}
use servarr_operator.Crds.Defaults.Collisions.{
  path_key, path_entries, volume_key, name_entries, pvc_name, mount_name, find_mount_path_collision,
  find_volume_name_collision, validate_no_parent_segment,
}
use servarr_operator.Crds.Defaults.Collisions.Laws.{
  find_mount_path_collision-path_entries, find_volume_name_collision-name_entries,
  validate_no_duplicate_names_in_override_iff, validate_no_parent_segment_iff,
}
use servarr_operator.Crds.Defaults.Resolve.{
  has_volume, restore_defaults, is_removed, check_override, merge_override, effective,
  reserved_volume_names, check_volume_segments, check_mount_segments, resolve_persistence_for_spec,
}

has_volume-restore_defaults :
    (n : String) (volumes ds : List PvcVolume)
    → has_volume n (restore_defaults volumes ds) ≡ (has_volume n volumes || has_volume n ds)
unfolding restore_defaults
has_volume-restore_defaults n volumes [] = ground arith
has_volume-restore_defaults n volumes (d ∷ ds) = elim (Bool-cases (has_volume d.name volumes)) [
  | inl old ↦ rw old (ground (arith, has_volume-restore_defaults n volumes ds, eq_iff d.name n))
  | inr new ↦ rw new (
      ground (
        arith,
        has_volume-restore_defaults n (volumes ++ d ∷ []) ds,
        any-append (λ (v : PvcVolume). v.name == n) volumes (d ∷ []),
      ))
]

has_volume-filter :
    (n : String) (keep : String → Bool) (vs : List PvcVolume)
    → has_volume n (filter (λ v. keep v.name) vs) ≡ (keep n && has_volume n vs)
has_volume-filter n keep [] = ground arith
has_volume-filter n keep (v ∷ vs) = ground (arith, has_volume-filter n keep vs, eq_iff v.name n)

-- A volume of a given name is left after resolution exactly if no tombstone applies to the name
-- and the merged layers or the compiled defaults have it: every default volume that an override
-- drops without a tombstone is restored, and a removed one is gone.
pub has_volume-effective :
    (defaults : PersistenceSpec) (override : Option PersistenceSpec) (n : String)
    → has_volume n (effective defaults override).volumes ≡ (
        not (is_removed override n)
        && (has_volume n (merge_override override defaults).volumes
            || has_volume n defaults.volumes))
unfolding effective
has_volume-effective defaults override n =
    has_volume-filter n (λ name. not (is_removed override name))
      (restore_defaults (merge_override override defaults).volumes defaults.volumes)
    ∙ ap (λ (b : Bool). not (is_removed override n) && b)
        (has_volume-restore_defaults n (merge_override override defaults).volumes defaults.volumes)

-- No volume or mount of a list has a path with a `..` segment.
abbrev NoParent {ℓ} : {A : Type ℓ} → (A → String) → List A → Type 0
NoParent path [] = Unit
NoParent path (x ∷ xs) = (has_parent_segment (path x) ≡ false) × NoParent path xs

check_volume_segments_iff :
    (vs : List PvcVolume) → (check_volume_segments vs ≡ ok tt) ↔ NoParent (λ v. v.mount_path) vs
unfolding check_volume_segments
check_volume_segments_iff [] = (λ h. tt, λ h. refl)
check_volume_segments_iff (v ∷ vs) = (
  λ h.
      let (u, first, later) = >>=-eq-ok (validate_no_parent_segment v.mount_path) _ h in
      (
        (validate_no_parent_segment_iff v.mount_path).0 first,
        (check_volume_segments_iff vs).0 later,
      ),
  λ d.
      rw ((validate_no_parent_segment_iff v.mount_path).1 d.0)
        ((check_volume_segments_iff vs).1 d.1),
)

check_mount_segments_iff :
    (ms : List NfsMount) → (check_mount_segments ms ≡ ok tt) ↔ NoParent (λ m. m.mount_path) ms
unfolding check_mount_segments
check_mount_segments_iff [] = (λ h. tt, λ h. refl)
check_mount_segments_iff (m ∷ ms) = (
  λ h.
      let (u, first, later) = >>=-eq-ok (validate_no_parent_segment m.mount_path) _ h in
      (
        (validate_no_parent_segment_iff m.mount_path).0 first,
        (check_mount_segments_iff ms).0 later,
      ),
  λ d.
      rw ((validate_no_parent_segment_iff m.mount_path).1 d.0)
        ((check_mount_segments_iff ms).1 d.1),
)

abbrev NoRepeats : Option PersistenceSpec → Type 0
NoRepeats none = Unit
NoRepeats (some spec) =
    Distinct (map pvc_name spec.volumes) × Distinct (map mount_name spec.nfs_mounts)

check_override_iff :
    (override : Option PersistenceSpec) → (check_override override ≡ ok tt) ↔ NoRepeats override
check_override_iff none = (λ h. tt, λ h. refl)
check_override_iff (some spec) = validate_no_duplicate_names_in_override_iff spec

-- What a resolved persistence has to satisfy: it makes a valid pod.
pub record IsSound (spec : ServarrAppSpec) (p : PersistenceSpec) : Type 0 where
  pub override_once : NoRepeats spec.persistence
  pub paths_apart :
      Distinct (map path_key (path_entries p.volumes p.nfs_mounts (operator_reserved_mounts spec)))
  pub names_apart :
      Distinct (map volume_key (name_entries p.volumes p.nfs_mounts (reserved_volume_names spec)))
  pub volumes_plain : NoParent (λ v. v.mount_path) p.volumes
  pub mounts_plain : NoParent (λ m. m.mount_path) p.nfs_mounts

resolve-IsSound :
    (self : PersistenceSpec) (spec : ServarrAppSpec) (p : PersistenceSpec)
    → resolve_persistence_for_spec self spec ≡ ok p
    → IsSound spec p × (p ≡ effective self spec.persistence)
unfolding resolve_persistence_for_spec
resolve-IsSound self spec p h =
    let q = effective self spec.persistence in
    let reserved = operator_reserved_mounts spec in
    let names = reserved_volume_names spec in
    let (u₁, once, h₁) = >>=-eq-ok (check_override spec.persistence) _ h in
    let (u₂, paths, h₂) =
      >>=-eq-ok (find_mount_path_collision q.volumes q.nfs_mounts reserved) _ h₁ in
    let (u₃, apart, h₃) =
      >>=-eq-ok (find_volume_name_collision q.volumes q.nfs_mounts names) _ h₂ in
    let (u₄, volumes, h₄) = >>=-eq-ok (check_volume_segments q.volumes) _ h₃ in
    let (u₅, mounts, h₅) = >>=-eq-ok (check_mount_segments q.nfs_mounts) _ h₄ in
    let sound : IsSound spec q = record {
      override_once = (check_override_iff spec.persistence).0 once;
      paths_apart =
          (find_mount_path_collision-path_entries q.volumes q.nfs_mounts reserved).0 paths;
      names_apart = (find_volume_name_collision-name_entries q.volumes q.nfs_mounts names).0 apart;
      volumes_plain = (check_volume_segments_iff q.volumes).0 volumes;
      mounts_plain = (check_mount_segments_iff q.nfs_mounts).0 mounts;
    } in
    (subst (IsSound spec) (ok-injective h₅) sound, sym (ok-injective h₅))

IsSound-resolve :
    (self : PersistenceSpec) (spec : ServarrAppSpec)
    → IsSound spec (effective self spec.persistence)
    → resolve_persistence_for_spec self spec ≡ ok (effective self spec.persistence)
unfolding resolve_persistence_for_spec
IsSound-resolve self spec sound =
    let q = effective self spec.persistence in
    rw ((check_override_iff spec.persistence).1 sound.override_once) (
      rw
        ((find_mount_path_collision-path_entries q.volumes q.nfs_mounts
            (operator_reserved_mounts spec)).1
          sound.paths_apart)
        (rw
          ((find_volume_name_collision-name_entries q.volumes q.nfs_mounts
              (reserved_volume_names spec)).1
            sound.names_apart)
          (rw ((check_volume_segments_iff q.volumes).1 sound.volumes_plain)
            (rw ((check_mount_segments_iff q.nfs_mounts).1 sound.mounts_plain)))))

-- Resolution succeeds exactly with the merged, restored and pruned persistence, and exactly if
-- that one is sound: one override repeats no name, no two mounts (the operator's included) have
-- one normalized path, no two pod volumes have one name, and no path has a `..` segment.
pub resolve_persistence_for_spec_iff :
    (self : PersistenceSpec) (spec : ServarrAppSpec) (p : PersistenceSpec)
    → (resolve_persistence_for_spec self spec ≡ ok p)
      ↔ (IsSound spec p × (p ≡ effective self spec.persistence))
resolve_persistence_for_spec_iff self spec p = (
  resolve-IsSound self spec p,
  λ (sound, e). IsSound-resolve self spec (subst (IsSound spec) e sound) ∙ ap ok (sym e),
)
