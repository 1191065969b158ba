-- ===== src/Webhook/Volumes/Laws.antt =====
-- What the rules of the webhook on persistence accept.
use servarr_operator.Prelude.{
  String, ◌≡◌, ◌↔◌, ◌⊎◌, refl, sym, true, Option, none, some, List, [], All, arith, is_empty,
  Result, ok, err, ok-injective, subst,
}
use servarr_operator.Crds.AppType.{AppType}
use servarr_operator.Crds.Spec.{ServarrAppSpec}
use servarr_operator.Crds.Types.Persistence.{PersistenceSpec}
use servarr_operator.Crds.Defaults.Collisions.{PersistenceError}
use servarr_operator.Crds.Defaults.Compiled.{
  AppDefaults, AppImageDefaults, DefaultsError, try_for_app,
}
use servarr_operator.Crds.Defaults.Resolve.{has_volume, resolve_persistence_for_spec}
use servarr_operator.Webhook.Rejection.{Rejection, reject_unless_iff, unless_iff, each_iff}
use servarr_operator.Webhook.Volumes.{
  require_defaults, check_resolved, validate_persistence_collisions, check_tombstones,
  validate_removed_default_volumes,
}

require_defaults_iff :
    {P : AppDefaults → Type 0} (r : Result DefaultsError AppDefaults) (app : AppType)
    (context : String) (next : AppDefaults → List Rejection)
    → ((d : AppDefaults) → (next d ≡ []) ↔ P d)
    → (require_defaults r app context next ≡ []) ↔ ((d : AppDefaults) × (r ≡ ok d) × P d)
require_defaults_iff {P = P} (ok defaults) app context next one = (
  λ h. (defaults, refl, (one defaults).0 h),
  λ (d, e, p). (one defaults).1 (subst P (sym (ok-injective e)) p),
)
require_defaults_iff (err e) app context next one = (λ h. ground arith, λ (d, e, p). ground arith)

check_resolved_iff :
    (r : Result PersistenceError PersistenceSpec)
    → (check_resolved r ≡ []) ↔ ((p : PersistenceSpec) × (r ≡ ok p))
check_resolved_iff (ok p) = (λ h. (p, refl), λ h. refl)
check_resolved_iff (err e) = (λ h. ground arith, λ (p, e). ground arith)

module _ (image_defaults : String → Option AppImageDefaults) where
  -- The persistence of the spec resolves against the defaults of its app.
  abbrev pub Resolves : ServarrAppSpec → Type 0
  Resolves spec =
      (defaults : AppDefaults) × (try_for_app image_defaults spec.app ≡ ok defaults)
      × ((p : PersistenceSpec) × (resolve_persistence_for_spec defaults.persistence spec ≡ ok p))

  pub validate_persistence_collisions_iff :
      (spec : ServarrAppSpec)
      → (validate_persistence_collisions image_defaults spec ≡ []) ↔ Resolves spec
  unfolding validate_persistence_collisions
  validate_persistence_collisions_iff spec =
      require_defaults_iff (try_for_app image_defaults spec.app) spec.app "persistence" _
        (λ d. check_resolved_iff (resolve_persistence_for_spec d.persistence spec))

  -- Each tombstone names a default volume of the app.
  abbrev pub TombstonesFit : AppType → Option PersistenceSpec → Type 0
  TombstonesFit app none = Unit
  TombstonesFit app (some persistence) =
      (is_empty persistence.removed_default_volumes ≡ true)
      ⊎ ((defaults : AppDefaults) × (try_for_app image_defaults app ≡ ok defaults)
          × All (λ name. has_volume name defaults.persistence.volumes ≡ true)
              persistence.removed_default_volumes)

  check_tombstones_iff :
      (app : AppType) (o : Option PersistenceSpec)
      → (check_tombstones image_defaults app o ≡ []) ↔ TombstonesFit app o
  check_tombstones_iff app none = (λ h. tt, λ h. refl)
  check_tombstones_iff app (some persistence) =
      unless_iff (is_empty persistence.removed_default_volumes) _ (
        require_defaults_iff (try_for_app image_defaults app) app "removedDefaultVolumes" _ (λ d.
          each_iff _ (λ name. reject_unless_iff (has_volume name d.persistence.volumes) _)
            persistence.removed_default_volumes))

  pub validate_removed_default_volumes_iff :
      (spec : ServarrAppSpec)
      → (validate_removed_default_volumes image_defaults spec ≡ [])
        ↔ TombstonesFit spec.app spec.persistence
  unfolding validate_removed_default_volumes
  validate_removed_default_volumes_iff spec = check_tombstones_iff spec.app spec.persistence
