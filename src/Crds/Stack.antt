-- ===== src/Crds/Stack.antt =====
-- A media stack's apps and their expansion: crates/servarr-crds/src/v1alpha1/media_stack.rs.
pub mod Laws
pub mod Expand
pub mod Status
use servarr_operator.Prelude.{
  String, Bool, true, false, not, ◌&&◌, Option, none, some, List, [], ◌∷◌, is_empty, or_option, ◌⧺◌,
  Result, ok, err, if◌then◌else◌,
}
use servarr_operator.Prelude.IndexMap.{IndexMap, insert}
use servarr_operator.Prelude.Int.{ℤ}
use servarr_operator.Crds.AppType.{
  AppType, sonarr, radarr, lidarr, sabnzbd, transmission, plex, jellyfin, maintainerr, ssh_bastion,
  as_str,
}
use servarr_operator.Crds.AppConfig.{AppConfig}
use servarr_operator.Crds.Spec.{ServarrAppSpec}
use servarr_operator.Crds.Types.Image.{ImageSpec}
use servarr_operator.Crds.Types.Persistence.{NfsMount, PersistenceSpec, merge_with}
use servarr_operator.Crds.Types.Gateway
use servarr_operator.Crds.Types.Gateway.{GatewaySpec, ServiceSpec}
use servarr_operator.Crds.Types.Nfs.{NfsServerSpec, server_address, nfs_path}
use servarr_operator.Crds.Types.Workload.{
  SecurityProfile, ResourceRequirements, ProbeSpec, EnvVar, NodeScheduling, NetworkPolicyConfig,
  GpuSpec,
}
use servarr_operator.Crds.Types.Sync.{
  ApiHealthCheckSpec, BackupSpec, ProwlarrSyncSpec, SeerrSyncSpec, BazarrSyncSpec, SubgenSyncSpec,
  MaintainerrSyncSpec, CleanuparrSyncSpec, HoundarrSyncSpec, AdminCredentialsSpec,
}

pub record StackDefaults : Type 0 where
  pub uid : Option ℤ
  pub gid : Option ℤ
  pub security : Option SecurityProfile
  pub gateway : Option GatewaySpec
  pub resources : Option ResourceRequirements
  pub persistence : Option PersistenceSpec
  pub env : List EnvVar
  pub scheduling : Option NodeScheduling
  pub network_policy : Option Bool
  pub network_policy_config : Option NetworkPolicyConfig
  pub image_pull_secrets : Option (List String)
  pub pod_annotations : Option (IndexMap String)
  pub admin_credentials : Option AdminCredentialsSpec

-- `StackDefaults::default()`
abbrev pub no_defaults : StackDefaults
no_defaults = record {
  uid = none;
  gid = none;
  security = none;
  gateway = none;
  resources = none;
  persistence = none;
  env = [];
  scheduling = none;
  network_policy = none;
  network_policy_config = none;
  image_pull_secrets = none;
  pod_annotations = none;
  admin_credentials = none;
}

pub record Split4kOverrides : Type 0 where
  pub image : Option ImageSpec
  pub resources : Option ResourceRequirements
  pub persistence : Option PersistenceSpec
  pub env : List EnvVar
  pub service : Option ServiceSpec
  pub service_name : Option String
  pub gateway : Option GatewaySpec
  pub admin_credentials : Option AdminCredentialsSpec

pub record StackApp : Type 0 where
  pub app : AppType
  pub instance_label : Option String  -- `instance`
  pub enabled : Bool
  pub image : Option ImageSpec
  pub uid : Option ℤ
  pub gid : Option ℤ
  pub security : Option SecurityProfile
  pub service : Option ServiceSpec
  pub service_name : Option String
  pub gateway : Option GatewaySpec
  pub resources : Option ResourceRequirements
  pub persistence : Option PersistenceSpec
  pub env : List EnvVar
  pub probes : Option ProbeSpec
  pub scheduling : Option NodeScheduling
  pub network_policy : Option Bool
  pub network_policy_config : Option NetworkPolicyConfig
  pub app_config : Option AppConfig
  pub api_key_secret : Option String
  pub api_health_check : Option ApiHealthCheckSpec
  pub backup : Option BackupSpec
  pub image_pull_secrets : Option (List String)
  pub pod_annotations : Option (IndexMap String)
  pub gpu : Option GpuSpec
  pub prowlarr_sync : Option ProwlarrSyncSpec
  pub seerr_sync : Option SeerrSyncSpec
  pub bazarr_sync : Option BazarrSyncSpec
  pub subgen_sync : Option SubgenSyncSpec
  pub maintainerr_sync : Option MaintainerrSyncSpec
  pub cleanuparr_sync : Option CleanuparrSyncSpec
  pub houndarr_sync : Option HoundarrSyncSpec
  pub admin_credentials : Option AdminCredentialsSpec
  pub split4k : Option Bool
  pub split4k_overrides : Option Split4kOverrides

abbrev name_with : Option String → String → AppType → String
name_with (some inst) stack_name app = stack_name ⧺ "-" ⧺ as_str app ⧺ "-" ⧺ inst
name_with none stack_name app = stack_name ⧺ "-" ⧺ as_str app

unfoldable pub child_name : StackApp → String → String
child_name self stack_name = name_with self.instance_label stack_name self.app

unfoldable pub split4k_valid : AppType → Bool
split4k_valid sonarr = true
split4k_valid radarr = true
split4k_valid _ = false

-- One of the two loops of `merge_env`, over the map built so far.
insert_env : IndexMap String → List EnvVar → IndexMap String
insert_env entries [] = entries
insert_env entries (e ∷ es) = insert_env (insert e.name e.value entries) es

abbrev into_env : IndexMap String → List EnvVar
into_env [] = []
into_env ((name, value) ∷ rest) = record { name = name; value = value } ∷ into_env rest

unfoldable pub merge_env : List EnvVar → List EnvVar → List EnvVar
unfolding insert_env
merge_env defaults overrides = into_env (insert_env (insert_env [] defaults) overrides)

unfoldable pub merge_persistence :
    Option PersistenceSpec → Option PersistenceSpec → Option PersistenceSpec
merge_persistence none app = app
merge_persistence (some d) none = some d
merge_persistence (some d) (some a) = some (merge_with a d)

-- `merged.extend(..)`
extend : IndexMap String → IndexMap String → IndexMap String
extend merged [] = merged
extend merged ((k, v) ∷ rest) = extend (insert k v merged) rest

unfoldable pub merge_annotations :
    Option (IndexMap String) → Option (IndexMap String) → Option (IndexMap String)
unfolding extend
merge_annotations none app = app
merge_annotations (some d) none = some d
merge_annotations (some d) (some a) = some (extend d a)

-- The `match` on the two gateways.
abbrev merge_gateways : Option GatewaySpec → Option GatewaySpec → Option GatewaySpec
merge_gateways (some gw) (some def_gw) = some (Gateway.merge_with gw def_gw)
merge_gateways (some gw) none = some gw
merge_gateways none def_gw = def_gw

abbrev defaults_or : Option StackDefaults → StackDefaults
defaults_or none = no_defaults
defaults_or (some d) = d

-- `to_servarr_spec` with the defaults at hand.
spec_under : StackApp → StackDefaults → ServarrAppSpec
unfolding merge_env merge_persistence merge_annotations
spec_under self d = record {
  app = self.app;
  instance_label = self.instance_label;
  image = self.image;
  uid = or_option self.uid d.uid;
  gid = or_option self.gid d.gid;
  security = or_option self.security d.security;
  service = self.service;
  service_name = self.service_name;
  gateway = merge_gateways self.gateway d.gateway;
  resources = or_option self.resources d.resources;
  persistence = merge_persistence d.persistence self.persistence;
  env = merge_env d.env self.env;
  probes = self.probes;
  scheduling = or_option self.scheduling d.scheduling;
  network_policy = or_option self.network_policy d.network_policy;
  network_policy_config = or_option self.network_policy_config d.network_policy_config;
  app_config = self.app_config;
  api_key_secret = self.api_key_secret;
  api_health_check = self.api_health_check;
  backup = self.backup;
  image_pull_secrets = or_option self.image_pull_secrets d.image_pull_secrets;
  pod_annotations = merge_annotations d.pod_annotations self.pod_annotations;
  gpu = self.gpu;
  prowlarr_sync = self.prowlarr_sync;
  seerr_sync = self.seerr_sync;
  bazarr_sync = self.bazarr_sync;
  subgen_sync = self.subgen_sync;
  maintainerr_sync = self.maintainerr_sync;
  cleanuparr_sync = self.cleanuparr_sync;
  houndarr_sync = self.houndarr_sync;
  admin_credentials = or_option self.admin_credentials d.admin_credentials;
}

unfoldable pub to_servarr_spec : StackApp → Option StackDefaults → ServarrAppSpec
unfolding spec_under
to_servarr_spec self defaults = spec_under self (defaults_or defaults)
