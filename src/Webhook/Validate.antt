-- ===== src/Webhook/Validate.antt =====
-- `validate_spec` and `validate_handler`: all rules on one admission request.
pub mod Laws
pub mod Answers
use servarr_operator.Prelude.{
  ℕ, String, Bool, true, false, not, ◌&&◌, Option, none, some, List, [], ◌∷◌, ◌++◌, ◌==◌, is_blank,
  Result, ok, err, ◌>>=◌, if◌then◌else◌,
}
use servarr_operator.Crds.Spec.{ServarrAppSpec}
use servarr_operator.Crds.Types.Workload
use servarr_operator.Crds.Types.Workload.{Value, get}
use servarr_operator.Crds.Defaults.Compiled.{AppImageDefaults}
use servarr_operator.Webhook.Rejection.{Rejection}
use servarr_operator.Webhook.Rules.{
  validate_app_config_match, validate_port_ranges, validate_resource_bounds, validate_gateway_hosts,
  validate_transmission_settings, validate_backup_retention, validate_indexer_definition_names,
  validate_admin_credentials, validate_admin_secret_not_derived, validate_backup_schedule,
}
use servarr_operator.Webhook.Ssh.{
  validate_ssh_shell_override, validate_ssh_security_context, validate_ssh_bastion_inputs,
}
use servarr_operator.Webhook.Volumes.{
  validate_persistence_collisions, validate_removed_default_volumes,
}
use servarr_operator.Webhook.Identity.{validate_identity_immutable, validate_no_duplicate_instance}

-- What the webhook calls: the table of the build, serde's reader of specs, the readers of a
-- fraction and of a cron expression, and the list of the apps in a namespace.
pub record Calls : Type 0 where
  pub image_defaults : String → Option AppImageDefaults
  pub from_value : Value → Result String ServarrAppSpec
  pub parse_cores : String → Option ℕ
  pub cron_error : String → Option String
  pub list_apps : String → Result String (List ServarrAppSpec)

pub record AdmissionRequest : Type 0 where
  pub uid : String
  pub operation : String
  pub namespace : String
  pub object : Value
  pub old_object : Option Value

pub data AdmissionError : Type 0 where
  missing_spec : AdmissionError
  invalid_spec : String → AdmissionError
  rejected : List Rejection → AdmissionError

abbrev pub as_text : Option Value → Option String
as_text (some (Workload.string s)) = some s
as_text _ = none

abbrev pub in_metadata : Option Value → Option String
in_metadata none = none
in_metadata (some metadata) = as_text (get "name" metadata)

-- `object.pointer("/metadata/name").and_then(|v| v.as_str())`
abbrev pub metadata_name : Value → Option String
metadata_name json = in_metadata (get "metadata" json)

-- Rule 6, on CREATE in a namespace.
abbrev pub create_rule : Calls → AdmissionRequest → ServarrAppSpec → List Rejection
create_rule calls request spec =
    let checked =
      validate_no_duplicate_instance spec request.namespace (calls.list_apps request.namespace) in
    if request.operation == "CREATE" && not (is_blank request.namespace) then checked else []

-- Rule 6b, on UPDATE.
abbrev pub update_rule : Calls → AdmissionRequest → ServarrAppSpec → List Rejection
update_rule calls request spec =
    let checked = validate_identity_immutable calls.from_value spec request.old_object in
    if request.operation == "UPDATE" then checked else []

-- The vector `errors` after rules 1 to 5b and after the rules that follow rule 6b.
abbrev pub rules_before : Calls → ServarrAppSpec → List Rejection
rules_before calls spec =
    validate_app_config_match spec
    ++ (validate_port_ranges spec
        ++ (validate_resource_bounds calls.parse_cores spec
            ++ (validate_gateway_hosts spec
                ++ (validate_persistence_collisions calls.image_defaults spec
                    ++ validate_removed_default_volumes calls.image_defaults spec))))

abbrev pub rules_after : Calls → Value → ServarrAppSpec → List Rejection
rules_after calls json spec =
    validate_transmission_settings spec
    ++ (validate_backup_retention spec
        ++ (validate_indexer_definition_names spec
            ++ (validate_ssh_shell_override spec
                ++ (validate_admin_credentials spec
                    ++ (validate_admin_secret_not_derived spec (metadata_name json)
                        ++ (validate_backup_schedule calls.cron_error spec
                            ++ (validate_ssh_security_context spec
                                ++ validate_ssh_bastion_inputs spec)))))))

unfoldable pub all_errors : Calls → AdmissionRequest → ServarrAppSpec → List Rejection
all_errors calls request spec =
    rules_before calls spec
    ++ (create_rule calls request spec
        ++ (update_rule calls request spec ++ rules_after calls request.object spec))

abbrev pub conclude : List Rejection → Result AdmissionError (Unit {0})
conclude [] = ok tt
conclude (e ∷ errors) = err (rejected (e ∷ errors))

abbrev pub spec_result : Result String ServarrAppSpec → Result AdmissionError ServarrAppSpec
spec_result (ok spec) = ok spec
spec_result (err e) = err (invalid_spec e)

abbrev pub read_spec : Calls → Option Value → Result AdmissionError ServarrAppSpec
read_spec calls none = err missing_spec
read_spec calls (some value) = spec_result (calls.from_value value)

abbrev pub parse_spec : Calls → Value → Result AdmissionError ServarrAppSpec
parse_spec calls json = read_spec calls (get "spec" json)

unfoldable pub validate_spec : Calls → AdmissionRequest → Result AdmissionError (Unit {0})
unfolding all_errors
validate_spec calls request =
    parse_spec calls request.object >>= λ spec. conclude (all_errors calls request spec)

pub record AdmissionReview : Type 0 where
  pub api_version : String
  pub kind : String
  pub request : Option AdmissionRequest

pub record AdmissionResponse : Type 0 where
  pub api_version : String
  pub kind : String
  pub uid : String
  pub allowed : Bool
  pub message : Option AdmissionError

pub data Reply : Type 0 where
  bad_request : Reply
  answered : AdmissionResponse → Reply

abbrev pub respond : AdmissionReview → AdmissionRequest → Result AdmissionError (Unit {0}) → Reply
respond review request (ok done) = answered (record {
  api_version = review.api_version;
  kind = review.kind;
  uid = request.uid;
  allowed = true;
  message = none;
})
respond review request (err message) = answered (record {
  api_version = review.api_version;
  kind = review.kind;
  uid = request.uid;
  allowed = false;
  message = some message;
})

unfoldable pub validate_handler : Calls → AdmissionReview → Reply
unfolding validate_spec
validate_handler calls review = elim review.request [
  | none ↦ bad_request
  | some request ↦ respond review request (validate_spec calls request)
]
