-- ===== src/Webhook/Validate/Laws.antt =====
-- What the webhook admits.
use servarr_operator.Prelude.{
  ◌≡◌, ◌↔◌, refl, false, not, ◌&&◌, ◌⊎◌, List, [], ◌∷◌, ◌==◌, arith, is_blank, ok, >>=-eq-ok,
}
use servarr_operator.Crds.Spec.{ServarrAppSpec}
use servarr_operator.Crds.Types.Workload.{Value}
use servarr_operator.Webhook.Rejection.{Rejection, both_iff, guarded_iff}
use servarr_operator.Webhook.Rules.Laws.{
  ConfigFits, validate_app_config_match_iff, ServiceFits, PeerPortFits, validate_port_ranges_iff,
}
use servarr_operator.Webhook.Rules.Fields.{
  ResourcesFit, validate_resource_bounds_iff, GatewayFits, validate_gateway_hosts_iff, SettingsFit,
  validate_transmission_settings_iff, RetentionFits, validate_backup_retention_iff, DefinitionsFit,
  validate_indexer_definition_names_iff,
}
use servarr_operator.Webhook.Rules.Secrets.{
  CredentialsFit, validate_admin_credentials_iff, SecretFits, validate_admin_secret_not_derived_iff,
  ScheduleFits, validate_backup_schedule_iff,
}
use servarr_operator.Webhook.Ssh.Laws.{
  AllUsers, KeepsShell, validate_ssh_shell_override_iff, BastionFits,
  validate_ssh_security_context_iff, IsSafe, validate_ssh_bastion_inputs_iff,
}
use servarr_operator.Webhook.Volumes.Laws.{
  Resolves, validate_persistence_collisions_iff, TombstonesFit,
  validate_removed_default_volumes_iff,
}
use servarr_operator.Webhook.Identity.Laws.{
  KeepsIdentity, validate_identity_immutable_iff, NoDuplicate, validate_no_duplicate_instance_iff,
}
use servarr_operator.Webhook.Validate.{
  Calls, AdmissionRequest, metadata_name, rules_before, rules_after, all_errors, conclude,
  parse_spec, validate_spec,
}

-- What the rules before and after those on the operation ask of a spec.
abbrev pub FitsBefore : Calls → ServarrAppSpec → Type 0
FitsBefore calls spec =
    ConfigFits spec.app spec.app_config
    × ((ServiceFits spec.service × PeerPortFits spec.app_config)
        × (ResourcesFit calls.parse_cores spec.resources
            × (GatewayFits spec.app spec.gateway
                × (Resolves calls.image_defaults spec
                    × TombstonesFit calls.image_defaults spec.app spec.persistence))))

abbrev pub FitsAfter : Calls → Value → ServarrAppSpec → Type 0
FitsAfter calls json spec =
    SettingsFit spec.app_config
    × (RetentionFits spec.backup
        × (DefinitionsFit spec.app_config
            × (AllUsers KeepsShell spec.app_config
                × (CredentialsFit spec.admin_credentials
                    × (SecretFits spec.app spec.admin_credentials (metadata_name json)
                        × (ScheduleFits calls.cron_error spec.backup
                            × (BastionFits spec.app_config spec.security spec.persistence
                                × AllUsers IsSafe spec.app_config)))))))

-- On CREATE in a namespace the identity is new, on UPDATE it is kept.
abbrev pub CreateFits : Calls → AdmissionRequest → ServarrAppSpec → Type 0
CreateFits calls request spec =
    ((request.operation == "CREATE" && not (is_blank request.namespace)) ≡ false)
    ⊎ NoDuplicate spec (calls.list_apps request.namespace)

abbrev pub UpdateFits : Calls → AdmissionRequest → ServarrAppSpec → Type 0
UpdateFits calls request spec =
    ((request.operation == "UPDATE") ≡ false)
    ⊎ KeepsIdentity calls.from_value spec request.old_object

abbrev pub Admissible : Calls → AdmissionRequest → ServarrAppSpec → Type 0
Admissible calls request spec =
    FitsBefore calls spec
    × (CreateFits calls request spec
        × (UpdateFits calls request spec × FitsAfter calls request.object spec))

rules_before_iff :
    (calls : Calls) (spec : ServarrAppSpec) → (rules_before calls spec ≡ []) ↔ FitsBefore calls spec
rules_before_iff calls spec = both_iff _ _ (validate_app_config_match_iff spec) (
    both_iff _ _ (validate_port_ranges_iff spec) (
      both_iff _ _ (validate_resource_bounds_iff calls.parse_cores spec) (
        both_iff _ _ (validate_gateway_hosts_iff spec) (
          both_iff _ _ (validate_persistence_collisions_iff calls.image_defaults spec)
            (validate_removed_default_volumes_iff calls.image_defaults spec)))))

rules_after_iff :
    (calls : Calls) (json : Value) (spec : ServarrAppSpec)
    → (rules_after calls json spec ≡ []) ↔ FitsAfter calls json spec
rules_after_iff calls json spec = both_iff _ _ (validate_transmission_settings_iff spec) (
    both_iff _ _ (validate_backup_retention_iff spec) (
      both_iff _ _ (validate_indexer_definition_names_iff spec) (
        both_iff _ _ (validate_ssh_shell_override_iff spec) (
          both_iff _ _ (validate_admin_credentials_iff spec) (
            both_iff _ _ (validate_admin_secret_not_derived_iff spec (metadata_name json)) (
              both_iff _ _ (validate_backup_schedule_iff calls.cron_error spec) (
                both_iff _ _ (validate_ssh_security_context_iff spec)
                  (validate_ssh_bastion_inputs_iff spec))))))))

all_errors_iff :
    (calls : Calls) (request : AdmissionRequest) (spec : ServarrAppSpec)
    → (all_errors calls request spec ≡ []) ↔ Admissible calls request spec
unfolding all_errors
all_errors_iff calls request spec = both_iff _ _ (rules_before_iff calls spec) (
    both_iff _ _
      (guarded_iff _ _ (
        validate_no_duplicate_instance_iff spec request.namespace
          (calls.list_apps request.namespace)))
      (both_iff _ _
        (guarded_iff _ _ (validate_identity_immutable_iff calls.from_value spec request.old_object))
        (rules_after_iff calls request.object spec)))

conclude_iff : (errors : List Rejection) → (conclude errors ≡ ok tt) ↔ (errors ≡ [])
conclude_iff [] = (λ h. refl, λ h. refl)
conclude_iff (e ∷ errors) = (λ h. ground arith, λ h. ground arith)

-- A request is admitted exactly if its object has a readable spec that is admissible: the app's
-- configuration and ports, its resources and gateway, its persistence and tombstones, its settings,
-- backups, indexer names, SSH users and credentials fit; a CREATE in a namespace finds no app with
-- the same type and instance there; and an UPDATE keeps the type and the instance of the old object.
pub validate_spec_iff :
    (calls : Calls) (request : AdmissionRequest)
    → (validate_spec calls request ≡ ok tt) ↔ (
        (spec : ServarrAppSpec) × (parse_spec calls request.object ≡ ok spec)
        × Admissible calls request spec)
unfolding validate_spec
validate_spec_iff calls request = (
  λ h.
      let (spec, parsed, passed) = >>=-eq-ok (parse_spec calls request.object) _ h in
      (
        spec,
        parsed,
        (all_errors_iff calls request spec).0
            ((conclude_iff (all_errors calls request spec)).0 passed),
      ),
  λ (spec, parsed, fits). rw parsed (
      (conclude_iff (all_errors calls request spec)).1
        ((all_errors_iff calls request spec).1 fits)),
)
