-- ===== src/Examples/Webhook.antt =====
-- Runs of the webhook and of the reading of its configuration.
use servarr_operator.Prelude.{
  map, String, ◌≡◌, ◌↔◌, refl, true, none, some, [], ◌∷◌, ◌==◌, ◌⧺◌, All, Result, ok, err,
  if◌then◌else◌, length, arith, eqb, ◌*◌, ◌%◌,
}
use servarr_operator.Prelude.Chars.{split_whitespace, is_whitespace}
use servarr_operator.Prelude.Decimal.{show}
use servarr_operator.Prelude.Decimal.Parse.{u64_limit}
use servarr_operator.Crds.AppType.{sonarr, radarr}
use servarr_operator.Crds.Spec.{ServarrAppSpec}
use servarr_operator.Crds.Types.Workload.{Value, object, string, member, no_members}
use servarr_operator.Webhook.Names.{is_valid_ssh_username}
use servarr_operator.Webhook.Names.Laws.{IsUsername, is_valid_ssh_username_iff}
use servarr_operator.Webhook.Quantity.{parse_memory, memory_units}
use servarr_operator.Webhook.Quantity.Laws.{parse_memory-show}
use servarr_operator.Webhook.Schedule.{normalize_backup_schedule}
use servarr_operator.Webhook.Schedule.Laws.{normalize_backup_schedule_lem}
use servarr_operator.Webhook.Validate.{
  Calls, AdmissionRequest, AdmissionReview, parse_spec, validate_spec, AdmissionResponse, answered,
  validate_handler,
}
use servarr_operator.Webhook.Validate.Laws.{Admissible, validate_spec_iff}
use servarr_operator.Webhook.Validate.Answers.{Justified, validate_handler_lem}
use servarr_operator.Webhook.Namespace.{
  began, step, created, updated, NoTwins, Reachable-NoTwins, answering,
}
use servarr_operator.Webhook.Registry.{Change, identity, Step-Change}
use servarr_operator.Environment.{Environment, text}
use servarr_operator.Environment.Webhook.{WebhookConfig, from_env, IsConfigured, from_env_lem}
use servarr_operator.Crds.AppType.{as_str, same_app}
use servarr_operator.Crds.Defaults.Collisions.{
  validate_no_duplicate_names_in_override, find_mount_path_collision, find_volume_name_collision,
  validate_no_parent_segment,
}
use servarr_operator.Crds.Defaults.Compiled.{try_for_app}
use servarr_operator.Crds.Defaults.Paths.{
  normalize_mount_path, has_parent_segment, join_slash, resolve_aliases, resolve_segments,
  resolve_symlink_alias, split_slash,
}
use servarr_operator.Crds.Defaults.Reserved.{
  operator_reserved_mounts, operator_reserved_volume_names,
}
use servarr_operator.Crds.Defaults.Resolve.{
  resolve_persistence_for_spec, effective, reserved_volume_names, check_mount_segments,
  check_volume_segments, restore_defaults,
}
use servarr_operator.Crds.Types.Persistence.{merge_with}
use servarr_operator.Prelude.{contains, strip_prefix}
use servarr_operator.Prelude.IndexMap.{lookup, insert}
use servarr_operator.Prelude.Repeats.{find_repeat}
use servarr_operator.Webhook.Identity.{
  check_stored, find_duplicate, identity_changes, validate_identity_immutable,
  validate_no_duplicate_instance,
}
use servarr_operator.Webhook.Rules.{
  transmission_managed_keys, validate_admin_credentials, validate_admin_secret_not_derived,
  validate_backup_retention, validate_backup_schedule, validate_indexer_definition_names,
  validate_transmission_settings, validate_app_config_match, validate_port_ranges,
  validate_resource_bounds, validate_gateway_hosts,
}
use servarr_operator.Webhook.Ssh.{
  validate_ssh_bastion_inputs, validate_ssh_security_context, validate_ssh_shell_override,
}
use servarr_operator.Webhook.Validate.{all_errors}
use servarr_operator.Webhook.Volumes.{
  validate_removed_default_volumes, validate_persistence_collisions,
}
use servarr_operator.Examples.Data.{spec_of, override, image_defaults}

-- The text in `spec` names the app of the sample.
abbrev reader : Value → Result String ServarrAppSpec
reader (string name) =
    if name == "sonarr"
    then ok (spec_of sonarr (some override) none)
    else if name == "radarr"
    then ok (spec_of radarr none none)
    else err "unknown app"
reader _ = err "not a spec"

abbrev calls : Calls
calls = record {
  image_defaults = image_defaults;
  from_value = reader;
  parse_cores = λ s. none;
  cron_error = λ s. none;
  list_apps = λ namespace. ok [];
}

abbrev with_spec : String → Value
with_spec name = object (member "spec" (string name) no_members)

abbrev request : String → String → AdmissionRequest
request operation name = record {
  uid = "1";
  operation = operation;
  namespace = "media";
  object = with_spec name;
  old_object = some (with_spec name);
}

abbrev sonarr_spec : ServarrAppSpec
sonarr_spec = spec_of sonarr (some override) none

abbrev radarr_spec : ServarrAppSpec
radarr_spec = spec_of radarr none none

-- Two apps are created one after the other, then the first is updated.
admitted_runs :
    (validate_spec (answering calls []) (request "CREATE" "sonarr") ≡ ok tt)
    × (validate_spec (answering calls (sonarr_spec ∷ [])) (request "CREATE" "radarr") ≡ ok tt)
    × (validate_spec (answering calls (radarr_spec ∷ sonarr_spec ∷ [])) (request "UPDATE" "sonarr")
        ≡ ok tt)
unfolding validate_spec all_errors validate_app_config_match validate_port_ranges
    validate_resource_bounds validate_gateway_hosts validate_persistence_collisions
    validate_removed_default_volumes try_for_app resolve_persistence_for_spec
    validate_no_duplicate_names_in_override find_repeat lookup insert find_mount_path_collision
    find_volume_name_collision effective merge_with normalize_mount_path operator_reserved_mounts
    operator_reserved_volume_names reserved_volume_names as_str same_app validate_no_parent_segment
    has_parent_segment join_slash resolve_aliases resolve_segments resolve_symlink_alias split_slash
    check_mount_segments check_volume_segments restore_defaults contains strip_prefix find_duplicate
    identity_changes check_stored validate_identity_immutable validate_no_duplicate_instance
    transmission_managed_keys validate_admin_credentials validate_admin_secret_not_derived
    validate_backup_retention validate_backup_schedule validate_indexer_definition_names
    validate_transmission_settings validate_ssh_bastion_inputs validate_ssh_security_context
    validate_ssh_shell_override
admitted_runs = (refl, refl, refl)

validate_spec_example :
    (spec : ServarrAppSpec) × (parse_spec calls (with_spec "sonarr") ≡ ok spec)
    × Admissible calls (request "CREATE" "sonarr") spec
validate_spec_example = (validate_spec_iff calls (request "CREATE" "sonarr")).0 admitted_runs.0

Reachable-NoTwins_example : NoTwins (radarr_spec ∷ sonarr_spec ∷ [])
Reachable-NoTwins_example = Reachable-NoTwins calls (radarr_spec ∷ sonarr_spec ∷ []) (
    step
      (step
        (step began
          (created [] (request "CREATE" "sonarr") sonarr_spec refl refl refl admitted_runs.0))
        (created (sonarr_spec ∷ []) (request "CREATE" "radarr") radarr_spec refl refl refl
          admitted_runs.1))
      (updated (radarr_spec ∷ []) [] sonarr_spec sonarr_spec (request "UPDATE" "sonarr")
        (with_spec "sonarr") refl refl refl refl admitted_runs.2))

Step-Change_example :
    Change (map identity (sonarr_spec ∷ [])) (map identity (radarr_spec ∷ sonarr_spec ∷ []))
Step-Change_example = Step-Change calls (sonarr_spec ∷ []) (radarr_spec ∷ sonarr_spec ∷ []) (
    created (sonarr_spec ∷ []) (request "CREATE" "radarr") radarr_spec refl refl refl
      admitted_runs.1)

abbrev review : AdmissionReview
review = record {
  api_version = "admission.k8s.io/v1";
  kind = "AdmissionReview";
  request = some (request "CREATE" "sonarr");
}

validate_handler_example :
    (r : AdmissionResponse) × (validate_handler calls review ≡ answered r)
    × (r.uid ≡ "1")
    × ((r.allowed ≡ true) ↔ (validate_spec calls (request "CREATE" "sonarr") ≡ ok tt))
    × Justified calls (request "CREATE" "sonarr") r.message
validate_handler_example = validate_handler_lem calls review (request "CREATE" "sonarr") refl

valid_name : is_valid_ssh_username "backup_1" ≡ true
unfolding is_valid_ssh_username
valid_name = refl

is_valid_ssh_username_example : IsUsername "backup_1"
is_valid_ssh_username_example = (is_valid_ssh_username_iff "backup_1").0 valid_name

parse_memory-show_example :
    (parse_memory (show 512) ≡ some 512)
    × All
        (λ (suffix, multiplier).
          parse_memory (show 512 ⧺ suffix) ≡ some ((512 * multiplier) % u64_limit))
        memory_units
parse_memory-show_example = parse_memory-show 512 (omega arith)

normalize_backup_schedule_example :
    (split_whitespace (normalize_backup_schedule " 0 3 * * * ") ≡ (
      if eqb (length (split_whitespace " 0 3 * * * ")) 5
      then "0" ∷ split_whitespace " 0 3 * * * "
      else split_whitespace " 0 3 * * * "))
    × (normalize_backup_schedule (normalize_backup_schedule " 0 3 * * * ")
        ≡ normalize_backup_schedule " 0 3 * * * ")
normalize_backup_schedule_example = normalize_backup_schedule_lem " 0 3 * * * "

abbrev environment : Environment
environment key = if key == "WEBHOOK_PORT" then some (text " 8443 ") else none

abbrev configured : WebhookConfig
configured = record {
  port = 8443;
  tls_cert = text "/etc/webhook/tls/tls.crt";
  tls_key = text "/etc/webhook/tls/tls.key";
}

configured_run : from_env environment ≡ ok configured
unfolding from_env is_whitespace
configured_run = refl

from_env_example : IsConfigured environment configured
from_env_example = from_env_lem environment configured configured_run
