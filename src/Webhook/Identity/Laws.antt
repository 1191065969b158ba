-- ===== src/Webhook/Identity/Laws.antt =====
-- What the rules of the webhook on the identity of an app accept.
use servarr_operator.Prelude.{
  some_injective, String, ◌≡◌, ◌↔◌, iff_trans, refl, sym, subst, ap, true, Option, none, some, List,
  [], ◌∷◌, All, arith, Result, ok, err, eq_iff, Bool-cases, inl, inr,
}
use servarr_operator.Crds.AppType.{as_str}
use servarr_operator.Crds.AppType.Laws.{as_str-injective, same_app_iff}
use servarr_operator.Crds.Spec.{ServarrAppSpec}
use servarr_operator.Crds.Types.Workload.{Value, get}
use servarr_operator.Webhook.Rejection.{reject_unless_iff, both_iff}
use servarr_operator.Webhook.Identity.{
  same_option, identity_changes, check_stored, spec_in, validate_identity_immutable, instance_name,
  same_identity, find_duplicate, validate_no_duplicate_instance,
}

same_option_iff : (a b : Option String) → (same_option a b ≡ true) ↔ (a ≡ b)
same_option_iff none none = (λ h. refl, λ h. refl)
same_option_iff (some a) (some b) =
    (λ h. ap some ((eq_iff a b).0 h), λ e. (eq_iff a b).1 (some_injective e))
same_option_iff none (some b) = (λ h. ground arith, λ h. ground arith)
same_option_iff (some a) none = (λ h. ground arith, λ h. ground arith)

-- The stored identity is the new one.
abbrev pub SameIdentity : ServarrAppSpec → ServarrAppSpec → Type 0
SameIdentity old spec = (old.app ≡ spec.app) × (old.instance_label ≡ spec.instance_label)

identity_changes_iff :
    (old spec : ServarrAppSpec) → (identity_changes old spec ≡ []) ↔ SameIdentity old spec
unfolding identity_changes
identity_changes_iff old spec =
    both_iff _ _ (iff_trans (reject_unless_iff _ _) (same_app_iff old.app spec.app))
      (iff_trans (reject_unless_iff _ _) (same_option_iff old.instance_label spec.instance_label))

check_stored_iff :
    (spec : ServarrAppSpec) (stored : Option ServarrAppSpec)
    → (check_stored spec stored ≡ [])
      ↔ ((old : ServarrAppSpec) × (stored ≡ some old) × SameIdentity old spec)
unfolding check_stored
check_stored_iff spec none = (λ h. ground arith, λ (old, e, same). ground arith)
check_stored_iff spec (some old) =
    let (only, if_same) = identity_changes_iff old spec in
    (
      λ h. (old, refl, only h),
      λ (stored, e, same). if_same (subst (λ o. SameIdentity o spec) (sym (some_injective e)) same),
    )

module _ (from_value : Value → Result String ServarrAppSpec) where
  -- There is no old object, or its spec is readable and has the same identity.
  abbrev pub KeepsIdentity : ServarrAppSpec → Option Value → Type 0
  KeepsIdentity spec none = Unit
  KeepsIdentity spec (some old_object) =
      (old : ServarrAppSpec) × (spec_in from_value (get "spec" old_object) ≡ some old)
      × SameIdentity old spec

  pub validate_identity_immutable_iff :
      (spec : ServarrAppSpec) (old_object : Option Value)
      → (validate_identity_immutable from_value spec old_object ≡ [])
        ↔ KeepsIdentity spec old_object
  unfolding validate_identity_immutable
  validate_identity_immutable_iff spec none = (λ h. tt, λ h. refl)
  validate_identity_immutable_iff spec (some old_object) =
      check_stored_iff spec (spec_in from_value (get "spec" old_object))

-- The same app type and the same instance, where no instance is the instance with the empty name.
abbrev pub SameKey : ServarrAppSpec → ServarrAppSpec → Type 0
SameKey a b = (a.app ≡ b.app) × (instance_name a ≡ instance_name b)

same_identity_iff :
    (new existing : ServarrAppSpec) → (same_identity new existing ≡ true) ↔ SameKey existing new
same_identity_iff new existing = (
  λ h. (
    as_str-injective existing.app new.app
        (ground (arith, h, eq_iff (as_str existing.app) (as_str new.app))),
    ground (arith, h, eq_iff (instance_name existing) (instance_name new)),
  ),
  λ (same_type, same_instance). ground (
    arith,
    (eq_iff (as_str existing.app) (as_str new.app)).1 (ap as_str same_type),
    (eq_iff (instance_name existing) (instance_name new)).1 same_instance,
  ),
)

-- No app of the list has the identity of the spec.
abbrev pub NoTwin : ServarrAppSpec → List ServarrAppSpec → Type 0
NoTwin spec apps = All (λ existing. ¬ SameKey existing spec) apps

find_duplicate_iff :
    (spec : ServarrAppSpec) (namespace : String) (apps : List ServarrAppSpec)
    → (find_duplicate spec namespace apps ≡ []) ↔ NoTwin spec apps
unfolding find_duplicate
find_duplicate_iff spec namespace [] = (λ h. tt, λ h. refl)
find_duplicate_iff spec namespace (app ∷ apps) =
    let (to_key, to_same) = same_identity_iff spec app in
    let (only, if_none) = find_duplicate_iff spec namespace apps in
    elim (Bool-cases (same_identity spec app)) [
      | inl e ↦ rw e (λ h. ground arith, λ h. absurd (h.0 (to_key e)))
      | inr e ↦ rw e (λ h. ((λ k. ground (arith, e, to_same k)), only h), λ h. if_none h.1)
    ]

-- The list was answered and has no app of the same identity.
abbrev pub NoDuplicate : ServarrAppSpec → Result String (List ServarrAppSpec) → Type 0
NoDuplicate spec (ok existing) = NoTwin spec existing
NoDuplicate spec (err summary) = ⊥

pub validate_no_duplicate_instance_iff :
    (spec : ServarrAppSpec) (namespace : String) (answer : Result String (List ServarrAppSpec))
    → (validate_no_duplicate_instance spec namespace answer ≡ []) ↔ NoDuplicate spec answer
unfolding validate_no_duplicate_instance
validate_no_duplicate_instance_iff spec namespace (ok existing) =
    find_duplicate_iff spec namespace existing
validate_no_duplicate_instance_iff spec namespace (err summary) = (λ h. ground arith, λ h. absurd h)
