-- ===== src/Webhook/Rules.antt =====
-- The rules of the webhook on a single spec, in the order of the source. Each function returns
-- what the source's function of the same name pushes onto `errors`.
pub mod Laws
pub mod Fields
pub mod Secrets
use servarr_operator.Prelude.{
  ℕ, zero, suc, String, Bool, true, false, not, ◌&&◌, ◌||◌, Option, none, some, List, [], ◌∷◌, ◌++◌,
  ◌==◌, ◌⧺◌, any, is_blank, is_empty, ltb, eqb, if◌then◌else◌,
}
use servarr_operator.Prelude.Int.{ℤ, in_range}
use servarr_operator.Prelude.Chars.{trim, is_digit, is_lower, is_upper, all_chars}
use Prim.Native.Char.{Char, code}
use servarr_operator.Crds.AppType.{AppType}
use servarr_operator.Crds.AppType
use servarr_operator.Crds.AppConfig
use servarr_operator.Crds.AppConfig.{AppConfig, IndexerDefinition, PeerPortConfig}
use servarr_operator.Crds.Spec.{ServarrAppSpec}
use servarr_operator.Crds.Types.Gateway.{
  ServicePort, ServiceSpec, GatewaySpec, RouteType, http, tcp, is_enabled, effective_route_type,
}
use servarr_operator.Crds.Types.Workload
use servarr_operator.Crds.Types.Workload.{Value, Members, no_members, member, ResourceRequirements}
use servarr_operator.Crds.Types.Sync.{BackupSpec, AdminCredentialsSpec}
use servarr_operator.Webhook.Quantity.{parse_cpu, parse_memory}
use servarr_operator.Webhook.Schedule.{normalize_backup_schedule}
use servarr_operator.Webhook.Rejection.{
  Rejection, reject_if, each, admin_secret_empty, admin_secret_derived, schedule_invalid,
  config_mismatch, port_out_of_range, cpu_limit_low, memory_limit_low, http_without_hosts,
  tcp_with_hosts, managed_key, retention_zero, indexer_name_invalid,
}

-- The `matches!` on the app and the variant of its configuration.
abbrev variant_matches : AppType → AppConfig → Bool
variant_matches AppType.transmission (AppConfig.transmission tc) = true
variant_matches AppType.sabnzbd (AppConfig.sabnzbd sc) = true
variant_matches AppType.prowlarr (AppConfig.prowlarr pc) = true
variant_matches AppType.ssh_bastion (AppConfig.ssh_bastion sc) = true
variant_matches AppType.seerr (AppConfig.seerr sc) = true
variant_matches AppType.lidarr AppConfig.lidarr = true
variant_matches AppType.unpackerr (AppConfig.unpackerr uc) = true
variant_matches _ _ = false

abbrev pub check_config : AppType → Option AppConfig → List Rejection
check_config app none = []
check_config app (some config) = reject_if (not (variant_matches app config)) (config_mismatch app)

unfoldable pub validate_app_config_match : ServarrAppSpec → List Rejection
validate_app_config_match spec = check_config spec.app spec.app_config

-- The closure `check_port`.
abbrev check_port : ℤ → String → List Rejection
check_port port label = reject_if (not (in_range 1 65535 port)) (port_out_of_range label port)

abbrev check_optional : Option ℤ → String → List Rejection
check_optional none label = []
check_optional (some port) label = check_port port label

-- `service.ports[{name}].{field}`
abbrev port_label : String → String → String
port_label name field = "service.ports[" ⧺ (name ⧺ ("]." ⧺ field))

abbrev check_service_port : ServicePort → List Rejection
check_service_port p =
    check_port p.port (port_label p.name "port")
    ++ (check_optional p.container_port (port_label p.name "containerPort")
        ++ check_optional p.host_port (port_label p.name "hostPort"))

abbrev check_service : Option ServiceSpec → List Rejection
check_service none = []
check_service (some svc) = each check_service_port svc.ports

abbrev check_peer : Option PeerPortConfig → List Rejection
check_peer none = []
check_peer (some peer) = check_port peer.port "appConfig.transmission.peerPort.port"

abbrev check_peer_port : Option AppConfig → List Rejection
check_peer_port (some (AppConfig.transmission tc)) = check_peer tc.peer_port
check_peer_port _ = []

unfoldable pub validate_port_ranges : ServarrAppSpec → List Rejection
validate_port_ranges spec = check_service spec.service ++ check_peer_port spec.app_config

-- Whether both quantities are read and the limit is the smaller one.
abbrev is_below : Option ℕ → Option ℕ → Bool
is_below (some limit_val) (some req_val) = ltb limit_val req_val
is_below _ _ = false

abbrev check_resources : (String → Option ℕ) → Option ResourceRequirements → List Rejection
check_resources parse_cores none = []
check_resources parse_cores (some res) =
    reject_if
      (is_below (parse_cpu parse_cores res.limits.cpu) (parse_cpu parse_cores res.requests.cpu))
      (cpu_limit_low res.limits.cpu res.requests.cpu)
    ++ reject_if (is_below (parse_memory res.limits.memory) (parse_memory res.requests.memory))
        (memory_limit_low res.limits.memory res.requests.memory)

unfoldable pub validate_resource_bounds :
    (parse_cores : String → Option ℕ) → ServarrAppSpec → List Rejection
validate_resource_bounds parse_cores spec = check_resources parse_cores spec.resources

abbrev check_hosts : RouteType → List String → List Rejection
check_hosts http hosts = reject_if (is_empty hosts) http_without_hosts
check_hosts tcp hosts = reject_if (not (is_empty hosts)) tcp_with_hosts

abbrev check_gateway : AppType → Option GatewaySpec → List Rejection
check_gateway app none = []
check_gateway app (some gw) =
    let checked = check_hosts (effective_route_type gw app) gw.hosts in
    if is_enabled gw then checked else []

unfoldable pub validate_gateway_hosts : ServarrAppSpec → List Rejection
validate_gateway_hosts spec = check_gateway spec.app spec.gateway

unfoldable pub transmission_managed_keys : List String
transmission_managed_keys =
    "rpc-authentication-required" ∷ "rpc-username" ∷ "rpc-password" ∷ "rpc-bind-address"
    ∷ "peer-port" ∷ "peer-port-random-on-start" ∷ "peer-port-random-low" ∷ "peer-port-random-high"
    ∷ "watch-dir" ∷ "watch-dir-enabled" ∷ []

-- `map.contains_key(key)`
abbrev pub contains_key : String → Members → Bool
contains_key key no_members = false
contains_key key (member name value members) = name == key || contains_key key members

abbrev check_value : Value → List Rejection
check_value (Workload.object members) =
    each (λ key. reject_if (contains_key key members) (managed_key key)) transmission_managed_keys
check_value _ = []

abbrev check_settings : Option AppConfig → List Rejection
check_settings (some (AppConfig.transmission tc)) = check_value tc.settings
check_settings _ = []

unfoldable pub validate_transmission_settings : ServarrAppSpec → List Rejection
unfolding transmission_managed_keys
validate_transmission_settings spec = check_settings spec.app_config

abbrev check_retention : Option BackupSpec → List Rejection
check_retention none = []
check_retention (some backup) =
    reject_if (backup.enabled && eqb backup.retention_count 0) retention_zero

unfoldable pub validate_backup_retention : ServarrAppSpec → List Rejection
validate_backup_retention spec = check_retention spec.backup

abbrev is_name_char : Char → Bool
is_name_char c = is_digit c || is_lower c || is_upper c || eqb (code c) b'-'

abbrev check_definition : IndexerDefinition → List Rejection
check_definition def =
    reject_if (not (all_chars is_name_char def.name) || is_blank def.name)
      (indexer_name_invalid def.name)

abbrev check_definitions : Option AppConfig → List Rejection
check_definitions (some (AppConfig.prowlarr pc)) = each check_definition pc.custom_definitions
check_definitions _ = []

unfoldable pub validate_indexer_definition_names : ServarrAppSpec → List Rejection
validate_indexer_definition_names spec = check_definitions spec.app_config

abbrev check_admin : Option AdminCredentialsSpec → List Rejection
check_admin none = []
check_admin (some ac) = reject_if (is_blank ac.secret_name) admin_secret_empty

unfoldable pub validate_admin_credentials : ServarrAppSpec → List Rejection
validate_admin_credentials spec = check_admin spec.admin_credentials

-- `RPC_PASSWORD_SECRET_SUFFIX` of crates/servarr-resources/src/common.rs is `rpc-password`.
abbrev pub derived_secret : String → String
derived_secret app_name = app_name ⧺ "-rpc-password"

abbrev derives_secret : AppType → Bool
derives_secret AppType.transmission = true
derives_secret _ = false

abbrev check_derived : AppType → Option AdminCredentialsSpec → Option String → List Rejection
check_derived app (some ac) (some app_name) =
    reject_if (derives_secret app && ac.secret_name == derived_secret app_name)
      (admin_secret_derived (derived_secret app_name))
check_derived app _ _ = []

unfoldable pub validate_admin_secret_not_derived : ServarrAppSpec → Option String → List Rejection
validate_admin_secret_not_derived spec app_name =
    check_derived spec.app spec.admin_credentials app_name

-- `cron_error` is the error of `cron::Schedule::from_str`, if it refuses the text.
abbrev check_cron : Option String → String → List Rejection
check_cron none schedule = []
check_cron (some e) schedule = schedule_invalid (trim schedule) e ∷ []

abbrev check_schedule : (String → Option String) → Option BackupSpec → List Rejection
check_schedule cron_error none = []
check_schedule cron_error (some backup) =
    let checked =
      check_cron (cron_error (normalize_backup_schedule backup.schedule)) backup.schedule in
    if is_blank (trim backup.schedule) then [] else checked

unfoldable pub validate_backup_schedule :
    (cron_error : String → Option String) → ServarrAppSpec → List Rejection
unfolding trim
validate_backup_schedule cron_error spec = check_schedule cron_error spec.backup
