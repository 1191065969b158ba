-- ===== src/Webhook/Volumes.antt =====
-- The rules of the webhook that compare a spec with the compiled defaults:
-- `validate_persistence_collisions` and `validate_removed_default_volumes`.
pub mod Laws
use servarr_operator.Prelude.{
  String, Bool, not, Option, none, some, List, [], ◌∷◌, Result, ok, err, is_empty, if◌then◌else◌,
}
use servarr_operator.Crds.AppType.{AppType}
use servarr_operator.Crds.Spec.{ServarrAppSpec}
use servarr_operator.Crds.Types.Persistence.{PersistenceSpec}
use servarr_operator.Crds.Defaults.Collisions.{PersistenceError}
use servarr_operator.Crds.Defaults.Compiled.{
  AppDefaults, AppImageDefaults, DefaultsError, try_for_app,
}
use servarr_operator.Crds.Defaults.Resolve.{has_volume, resolve_persistence_for_spec}
use servarr_operator.Webhook.Rejection.{
  Rejection, reject_if, each, no_compiled_defaults, persistence_rejected, unknown_removed_volume,
}

-- `require_defaults`, with what the caller does on each of its two results.
abbrev pub require_defaults :
    Result DefaultsError AppDefaults
    → AppType
    → String
    → (AppDefaults → List Rejection)
    → List Rejection
require_defaults (ok defaults) app context next = next defaults
require_defaults (err e) app context next = no_compiled_defaults app context ∷ []

abbrev pub check_resolved : Result PersistenceError PersistenceSpec → List Rejection
check_resolved (ok persistence) = []
check_resolved (err e) = persistence_rejected e ∷ []

abbrev pub check_removed : AppType → List String → AppDefaults → List Rejection
check_removed app names defaults =
    each
      (λ name.
        reject_if (not (has_volume name defaults.persistence.volumes))
          (unknown_removed_volume name app))
      names

module _ (image_defaults : String → Option AppImageDefaults) where
  unfoldable pub validate_persistence_collisions : ServarrAppSpec → List Rejection
  validate_persistence_collisions spec =
      require_defaults (try_for_app image_defaults spec.app) spec.app "persistence"
        (λ defaults. check_resolved (resolve_persistence_for_spec defaults.persistence spec))

  abbrev pub check_tombstones : AppType → Option PersistenceSpec → List Rejection
  check_tombstones app none = []
  check_tombstones app (some persistence) =
      let checked =
        require_defaults (try_for_app image_defaults app) app "removedDefaultVolumes"
          (check_removed app persistence.removed_default_volumes) in
      if is_empty persistence.removed_default_volumes then [] else checked

  unfoldable pub validate_removed_default_volumes : ServarrAppSpec → List Rejection
  validate_removed_default_volumes spec = check_tombstones spec.app spec.persistence
