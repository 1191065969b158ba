-- ===== src/Crds/Stack/Expand/Laws.antt =====
-- What the injection of NFS mounts of crates/servarr-crds/src/v1alpha1/media_stack.rs gives.
use mathlib.Core.Bool.{false≢true}
use servarr_operator.Prelude.{
  String, ◌≡◌, refl, Bool, true, Option, none, some, List, [], ◌∷◌, arith, or_option, is_empty,
  contains,
}
use servarr_operator.Crds.Spec.{ServarrAppSpec}
use servarr_operator.Crds.Types.Persistence.{PvcVolume, NfsMount, PersistenceSpec, merge_with}
use servarr_operator.Crds.Types.Persistence.Merge.{
  find_mount, contains-nil, merge_with_mounts, merge_with_tombstones,
}
use servarr_operator.Crds.Stack.Expand.{under_user, add_mounts}

abbrev pub mounts_of : Option PersistenceSpec → List NfsMount
mounts_of none = []
mounts_of (some p) = p.nfs_mounts

abbrev pub removed_of : Option PersistenceSpec → List String
removed_of none = []
removed_of (some p) = p.removed_default_volumes

abbrev pub volumes_of : Option PersistenceSpec → List PvcVolume
volumes_of none = []
volumes_of (some p) = p.volumes

empty_volumes : (vs : List PvcVolume) → is_empty vs ≡ true → vs ≡ []
empty_volumes [] h = refl
empty_volumes (v ∷ vs) h = absurd (false≢true h)

-- What an injection of mounts leaves to find, and what it leaves alone.
abbrev pub IsInjected : ServarrAppSpec → List NfsMount → ServarrAppSpec → String → Type 0
IsInjected spec mounts result name =
    (find_mount name (mounts_of result.persistence)
      ≡ or_option (find_mount name (mounts_of spec.persistence)) (find_mount name mounts))
    × (volumes_of result.persistence ≡ volumes_of spec.persistence)
    × (contains name (removed_of result.persistence) ≡ contains name (removed_of spec.persistence))
    × (record result { persistence = spec.persistence } ≡ spec)

merged_volumes :
    (user injected : PersistenceSpec)
    → injected.volumes ≡ []
    → (merge_with user injected).volumes ≡ user.volumes
unfolding merge_with
merged_volumes user injected h = ground (arith, empty_volumes user.volumes)

none_found : (name : String) → find_mount name [] ≡ none
unfolding find_mount
none_found name = refl

abbrev injected_layer : List NfsMount → PersistenceSpec
injected_layer mounts = record { volumes = []; nfs_mounts = mounts; removed_default_volumes = [] }

under_user_lem :
    (p : Option PersistenceSpec) (mounts : List NfsMount) (name : String)
    → (find_mount name (under_user p (injected_layer mounts)).nfs_mounts
        ≡ or_option (find_mount name (mounts_of p)) (find_mount name mounts))
      × ((under_user p (injected_layer mounts)).volumes ≡ volumes_of p)
      × (contains name (under_user p (injected_layer mounts)).removed_default_volumes
          ≡ contains name (removed_of p))
under_user_lem none mounts name = (simp none_found, refl, refl)
under_user_lem (some user) mounts name = (
  (merge_with_mounts user (injected_layer mounts) name).1,
  merged_volumes user (injected_layer mounts) refl,
  ground (arith, (merge_with_tombstones user (injected_layer mounts) name).1, contains-nil name),
)

pub add_mounts-IsInjected :
    (mounts : List NfsMount) (spec : ServarrAppSpec) (name : String)
    → IsInjected spec mounts (add_mounts mounts spec) name
unfolding add_mounts
add_mounts-IsInjected [] spec name = (ground (arith, none_found name), refl, refl, refl)
add_mounts-IsInjected (m ∷ ms) spec name =
    let layer = under_user_lem spec.persistence (m ∷ ms) name in (layer.0, layer.1, layer.2, refl)
