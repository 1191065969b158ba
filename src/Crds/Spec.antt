-- ===== src/Crds/Spec.antt =====
-- `ServarrAppSpec` of crates/servarr-crds/src/v1alpha1/spec.rs.
use servarr_operator.Prelude.{String, Bool, Option, List}
use servarr_operator.Prelude.IndexMap.{IndexMap}
use servarr_operator.Prelude.Int.{ℤ}
use servarr_operator.Crds.AppType.{AppType}
use servarr_operator.Crds.AppConfig.{AppConfig}
use servarr_operator.Crds.Types.Image.{ImageSpec}
use servarr_operator.Crds.Types.Persistence.{PersistenceSpec}
use servarr_operator.Crds.Types.Gateway.{GatewaySpec, ServiceSpec}
use servarr_operator.Crds.Types.Workload.{
  SecurityProfile, ResourceRequirements, ProbeSpec, EnvVar, NodeScheduling, NetworkPolicyConfig,
  GpuSpec,
}
use servarr_operator.Crds.Types.Sync.{
  ApiHealthCheckSpec, BackupSpec, ProwlarrSyncSpec, SeerrSyncSpec, BazarrSyncSpec, SubgenSyncSpec,
  MaintainerrSyncSpec, CleanuparrSyncSpec, HoundarrSyncSpec, AdminCredentialsSpec,
}

pub record ServarrAppSpec : Type 0 where
  pub app : AppType
  pub instance_label : Option String  -- `instance`
  pub image : Option ImageSpec
  pub uid : Option ℤ
  pub gid : Option ℤ
  pub security : Option SecurityProfile
  pub service : Option ServiceSpec
  pub service_name : Option String
  pub gateway : Option GatewaySpec
  pub resources : Option ResourceRequirements
  pub persistence : Option PersistenceSpec
  pub env : List EnvVar
  pub probes : Option ProbeSpec
  pub scheduling : Option NodeScheduling
  pub network_policy : Option Bool
  pub network_policy_config : Option NetworkPolicyConfig
  pub app_config : Option AppConfig
  pub api_key_secret : Option String
  pub api_health_check : Option ApiHealthCheckSpec
  pub backup : Option BackupSpec
  pub image_pull_secrets : Option (List String)
  pub pod_annotations : Option (IndexMap String)
  pub gpu : Option GpuSpec
  pub prowlarr_sync : Option ProwlarrSyncSpec
  pub seerr_sync : Option SeerrSyncSpec
  pub bazarr_sync : Option BazarrSyncSpec
  pub subgen_sync : Option SubgenSyncSpec
  pub maintainerr_sync : Option MaintainerrSyncSpec
  pub cleanuparr_sync : Option CleanuparrSyncSpec
  pub houndarr_sync : Option HoundarrSyncSpec
  pub admin_credentials : Option AdminCredentialsSpec
