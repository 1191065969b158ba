-- ===== src/Webhook/Rules/Fields.antt =====
-- What the rules of the webhook on single fields of a spec accept.
use servarr_operator.Prelude.{
  ℕ, ◌≤◌, String, ◌≡◌, ◌≢◌, ◌↔◌, iff_trans, ◌⊎◌, inl, inr, refl, Bool, true, false, ◌&&◌, Option,
  none, some, List, [], ◌∷◌, All, arith, eqb,
}
use servarr_operator.Prelude.Chars.{all_chars}
use servarr_operator.Crds.AppType.{AppType}
use servarr_operator.Crds.AppConfig.{AppConfig, IndexerDefinition}
use servarr_operator.Crds.Spec.{ServarrAppSpec}
use servarr_operator.Crds.Types.Gateway.{
  GatewaySpec, RouteType, http, tcp, is_enabled, effective_route_type,
}
use servarr_operator.Crds.Types.Workload
use servarr_operator.Crds.Types.Workload.{Value, ResourceRequirements}
use servarr_operator.Crds.Types.Sync.{BackupSpec}
use servarr_operator.Webhook.Quantity.{parse_cpu, parse_memory}
use servarr_operator.Webhook.Rules.{
  is_below, check_resources, validate_resource_bounds, check_hosts, check_gateway,
  validate_gateway_hosts, transmission_managed_keys, contains_key, check_value, check_settings,
  validate_transmission_settings, check_retention, validate_backup_retention, is_name_char,
  check_definition, check_definitions, validate_indexer_definition_names,
}
use servarr_operator.Webhook.Rejection.{
  Rejection, reject_if, reject_if_iff, both_iff, each_iff, managed_key, blank_iff, guarded_iff,
}

-- A limit that is not below its request, where both are read.
abbrev pub AtLeast : Option ℕ → Option ℕ → Type 0
AtLeast (some limit_val) (some req_val) = req_val ≤ limit_val
AtLeast _ _ = Unit

is_below_iff : (limit request : Option ℕ) → (is_below limit request ≡ false) ↔ AtLeast limit request
is_below_iff (some l) (some r) = (λ h. ground arith, λ h. ground (arith, h))
is_below_iff _ _ = (λ h. tt, λ h. refl)

below_iff :
    (limit request : Option ℕ) (r : Rejection)
    → (reject_if (is_below limit request) r ≡ []) ↔ AtLeast limit request
below_iff limit request r =
    iff_trans (reject_if_iff (is_below limit request) r) (is_below_iff limit request)

abbrev pub ResourcesFit : (String → Option ℕ) → Option ResourceRequirements → Type 0
ResourcesFit parse_cores none = Unit
ResourcesFit parse_cores (some res) =
    AtLeast (parse_cpu parse_cores res.limits.cpu) (parse_cpu parse_cores res.requests.cpu)
    × AtLeast (parse_memory res.limits.memory) (parse_memory res.requests.memory)

check_resources_iff :
    (parse_cores : String → Option ℕ) (o : Option ResourceRequirements)
    → (check_resources parse_cores o ≡ []) ↔ ResourcesFit parse_cores o
check_resources_iff parse_cores none = (λ h. tt, λ h. refl)
check_resources_iff parse_cores (some res) = both_iff _ _ (below_iff _ _ _) (below_iff _ _ _)

pub validate_resource_bounds_iff :
    (parse_cores : String → Option ℕ) (spec : ServarrAppSpec)
    → (validate_resource_bounds parse_cores spec ≡ []) ↔ ResourcesFit parse_cores spec.resources
unfolding validate_resource_bounds
validate_resource_bounds_iff parse_cores spec = check_resources_iff parse_cores spec.resources

-- An HTTP route has a host, a TCP route has none.
abbrev pub HostsFit : RouteType → List String → Type 0
HostsFit http hosts = hosts ≢ []
HostsFit tcp hosts = hosts ≡ []

check_hosts_iff :
    (r : RouteType) (hosts : List String) → (check_hosts r hosts ≡ []) ↔ HostsFit r hosts
check_hosts_iff http [] = (λ h. ground arith, λ h. absurd (h refl))
check_hosts_iff http (x ∷ xs) = (λ h e. ground arith, λ h. refl)
check_hosts_iff tcp [] = (λ h. refl, λ h. refl)
check_hosts_iff tcp (x ∷ xs) = (λ h. ground arith, λ h. ground arith)

abbrev pub GatewayFits : AppType → Option GatewaySpec → Type 0
GatewayFits app none = Unit
GatewayFits app (some gw) =
    (is_enabled gw ≡ false) ⊎ HostsFit (effective_route_type gw app) gw.hosts

check_gateway_iff :
    (app : AppType) (o : Option GatewaySpec) → (check_gateway app o ≡ []) ↔ GatewayFits app o
check_gateway_iff app none = (λ h. tt, λ h. refl)
check_gateway_iff app (some gw) =
    guarded_iff (is_enabled gw) _ (check_hosts_iff (effective_route_type gw app) gw.hosts)

pub validate_gateway_hosts_iff :
    (spec : ServarrAppSpec) → (validate_gateway_hosts spec ≡ []) ↔ GatewayFits spec.app spec.gateway
unfolding validate_gateway_hosts
validate_gateway_hosts_iff spec = check_gateway_iff spec.app spec.gateway

-- The raw settings set no key that the operator manages.
abbrev pub Unmanaged : Value → Type 0
Unmanaged (Workload.object members) =
    All (λ key. contains_key key members ≡ false) transmission_managed_keys
Unmanaged _ = Unit

abbrev pub SettingsFit : Option AppConfig → Type 0
SettingsFit (some (AppConfig.transmission tc)) = Unmanaged tc.settings
SettingsFit _ = Unit

check_value_iff : (settings : Value) → (check_value settings ≡ []) ↔ Unmanaged settings
check_value_iff (Workload.object members) =
    each_iff _ (λ key. reject_if_iff (contains_key key members) (managed_key key))
      transmission_managed_keys
check_value_iff _ = (λ h. tt, λ h. refl)

check_settings_iff : (c : Option AppConfig) → (check_settings c ≡ []) ↔ SettingsFit c
check_settings_iff (some (AppConfig.transmission tc)) = check_value_iff tc.settings
check_settings_iff _ = (λ h. tt, λ h. refl)

pub validate_transmission_settings_iff :
    (spec : ServarrAppSpec)
    → (validate_transmission_settings spec ≡ []) ↔ SettingsFit spec.app_config
unfolding validate_transmission_settings
validate_transmission_settings_iff spec = check_settings_iff spec.app_config

-- An enabled backup keeps at least one file.
abbrev pub RetentionFits : Option BackupSpec → Type 0
RetentionFits none = Unit
RetentionFits (some backup) = (backup.enabled ≡ false) ⊎ (1 ≤ backup.retention_count)

retention_iff : (b : Bool) (n : ℕ) → ((b && eqb n 0) ≡ false) ↔ ((b ≡ false) ⊎ (1 ≤ n))
retention_iff true n = (
  λ h. inr (ground arith),
  λ h. elim h [ inl e ↦ ground arith | inr large ↦ ground (arith, large) ],
)
retention_iff false n = (λ h. inl refl, λ h. refl)

check_retention_iff : (o : Option BackupSpec) → (check_retention o ≡ []) ↔ RetentionFits o
check_retention_iff none = (λ h. tt, λ h. refl)
check_retention_iff (some backup) =
    iff_trans (reject_if_iff _ _) (retention_iff backup.enabled backup.retention_count)

pub validate_backup_retention_iff :
    (spec : ServarrAppSpec) → (validate_backup_retention spec ≡ []) ↔ RetentionFits spec.backup
unfolding validate_backup_retention
validate_backup_retention_iff spec = check_retention_iff spec.backup

-- A name that is not empty and has ASCII letters, digits and hyphens alone.
abbrev pub IsName : String → Type 0
IsName name = (name ≢ "") × (all_chars is_name_char name ≡ true)

check_definition_iff : (d : IndexerDefinition) → (check_definition d ≡ []) ↔ IsName d.name
check_definition_iff d = iff_trans (reject_if_iff _ _) (
  λ h. ((blank_iff d.name).0 (ground arith), ground arith),
  λ h. let filled = (blank_iff d.name).1 h.0 in ground (arith, filled, h.1),
)

abbrev pub DefinitionsFit : Option AppConfig → Type 0
DefinitionsFit (some (AppConfig.prowlarr pc)) =
    All (λ (d : IndexerDefinition). IsName d.name) pc.custom_definitions
DefinitionsFit _ = Unit

check_definitions_iff : (c : Option AppConfig) → (check_definitions c ≡ []) ↔ DefinitionsFit c
check_definitions_iff (some (AppConfig.prowlarr pc)) =
    each_iff check_definition check_definition_iff pc.custom_definitions
check_definitions_iff _ = (λ h. tt, λ h. refl)

pub validate_indexer_definition_names_iff :
    (spec : ServarrAppSpec)
    → (validate_indexer_definition_names spec ≡ []) ↔ DefinitionsFit spec.app_config
unfolding validate_indexer_definition_names
validate_indexer_definition_names_iff spec = check_definitions_iff spec.app_config
