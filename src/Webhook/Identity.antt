-- ===== src/Webhook/Identity.antt =====
-- The rules of the webhook on the identity of an app, which is its type and its instance:
-- `validate_identity_immutable` and `validate_no_duplicate_instance`.
pub mod Laws
use servarr_operator.Prelude.{
  String, Bool, true, false, not, ◌&&◌, Option, none, some, List, [], ◌∷◌, ◌++◌, ◌==◌, any,
  unwrap_or, Result, ok, err, if◌then◌else◌,
}
use servarr_operator.Crds.AppType.{AppType, as_str, same_app}
use servarr_operator.Crds.Spec.{ServarrAppSpec}
use servarr_operator.Crds.Types.Workload.{Value, get}
use servarr_operator.Webhook.Rejection.{
  Rejection, reject_if, stored_spec_unusable, app_changed, instance_changed, list_failed,
  already_exists,
}

-- `==` on `Option<String>`
abbrev pub same_option : Option String → Option String → Bool
same_option none none = true
same_option (some a) (some b) = a == b
same_option _ _ = false

unfoldable pub identity_changes : ServarrAppSpec → ServarrAppSpec → List Rejection
unfolding same_app
identity_changes old spec =
    reject_if (not (same_app old.app spec.app)) (app_changed old.app spec.app)
    ++ reject_if (not (same_option old.instance_label spec.instance_label))
        (instance_changed old.instance_label spec.instance_label)

unfoldable pub check_stored : ServarrAppSpec → Option ServarrAppSpec → List Rejection
unfolding identity_changes
check_stored spec none = stored_spec_unusable ∷ []
check_stored spec (some old) = identity_changes old spec

-- `serde_json::from_value(..).ok()`
abbrev pub ok_option {ℓ} : {E A : Type ℓ} → Result E A → Option A
ok_option (ok a) = some a
ok_option (err e) = none

module _ (from_value : Value → Result String ServarrAppSpec) where
  abbrev pub spec_in : Option Value → Option ServarrAppSpec
  spec_in none = none
  spec_in (some value) = ok_option (from_value value)

  -- By the old object and the spec that is read from it.
  unfoldable pub validate_identity_immutable : ServarrAppSpec → Option Value → List Rejection
  unfolding check_stored
  validate_identity_immutable spec none = []
  validate_identity_immutable spec (some old_object) =
      check_stored spec (spec_in (get "spec" old_object))

-- `instance.as_deref().unwrap_or("")`
abbrev pub instance_name : ServarrAppSpec → String
instance_name spec = unwrap_or spec.instance_label ""

abbrev pub same_identity : ServarrAppSpec → ServarrAppSpec → Bool
same_identity new existing =
    as_str existing.app == as_str new.app && instance_name existing == instance_name new

-- The loop over the apps of the namespace returns at the first hit.
unfoldable pub find_duplicate : ServarrAppSpec → String → List ServarrAppSpec → List Rejection
unfolding as_str
find_duplicate spec namespace [] = []
find_duplicate spec namespace (app ∷ apps) =
    let later = find_duplicate spec namespace apps in
    if same_identity spec app
    then already_exists spec.app (instance_name spec) namespace ∷ []
    else later

-- The answer of `api.list` in the namespace: the specs, or the public summary of its error.
unfoldable pub validate_no_duplicate_instance :
    ServarrAppSpec → String → Result String (List ServarrAppSpec) → List Rejection
unfolding find_duplicate
validate_no_duplicate_instance spec namespace (err summary) = list_failed summary ∷ []
validate_no_duplicate_instance spec namespace (ok existing) = find_duplicate spec namespace existing
