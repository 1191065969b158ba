-- ===== src/Crds/Defaults/Compiled.antt =====
-- `AppDefaults::try_for_app` and `validate_all` of crates/servarr-crds/src/v1alpha1/defaults.rs.
-- The table `image_defaults`, which the build generates, is a parameter.
pub mod Laws
use servarr_operator.Prelude.{
  ℕ, String, Bool, true, false, Option, none, some, List, [], ◌∷◌, ◌++◌, ◌==◌, is_empty, Result, ok,
  err, ◌>>=◌, if◌then◌else◌,
}
use servarr_operator.Prelude.Int.{ℤ, pos}
use servarr_operator.Crds.AppType.{
  AppType, transmission, subgen, maintainerr, seerr, houndarr, all_apps, as_str,
}
use servarr_operator.Crds.AppConfig
use servarr_operator.Crds.AppConfig.{AppConfig, TransmissionConfig}
use servarr_operator.Crds.Types.Image.{ImageSpec}
use servarr_operator.Crds.Types.Persistence.{PvcVolume, PersistenceSpec}
use servarr_operator.Crds.Types.Gateway.{ServicePort, ServiceSpec}
use servarr_operator.Crds.Types.Workload
use servarr_operator.Crds.Types.Workload.{
  SecurityProfile, SecurityProfileType, linux_server, non_root, custom, ResourceList,
  ResourceRequirements, ProbeConfig, ProbeSpec, ProbeType, EnvVar, Value,
}

pub record AppImageDefaults : Type 0 where
  pub repository : String
  pub tag : String
  pub port : ℤ
  pub security : String
  pub downloads : Bool
  pub probe_path : String
  pub probe_type : String

pub record AppDefaults : Type 0 where
  pub image : ImageSpec
  pub service : ServiceSpec
  pub security : SecurityProfile
  pub persistence : PersistenceSpec
  pub probes : ProbeSpec
  pub resources : ResourceRequirements
  pub uid : ℤ
  pub gid : ℤ
  pub env : List EnvVar
  pub app_config : Option AppConfig

-- The error texts, with what they interpolate.
pub data DefaultsError : Type 0 where
  no_image_defaults unknown_security_profile missing_config_volume : String → DefaultsError

pvc : String → String → String → PvcVolume
pvc name mount size = record {
  name = name;
  mount_path = mount;
  access_mode = "ReadWriteOnce";
  size = size;
  storage_class = "";
  existing_claim_name = none;
}

single_port_service : String → ℤ → ServiceSpec
single_port_service name port = record {
  service_type = "ClusterIP";
  ports =
      record { name = name; port = port; protocol = "TCP"; container_port = none; host_port = none }
      ∷ [];
}

probe : ProbeType → String → ℕ → ℕ → ProbeConfig
probe kind path delay period = record {
  probe_type = kind;
  path = path;
  command = [];
  initial_delay_seconds = pos delay;
  period_seconds = pos period;
  timeout_seconds = pos 5;
  failure_threshold = pos 5;
}

tcp_probes : ℕ → ℕ → ProbeSpec
unfolding probe
tcp_probes liveness_delay readiness_delay = record {
  liveness = probe ProbeType.tcp "/" liveness_delay 10;
  readiness = probe ProbeType.tcp "/" readiness_delay 5;
}

http_probes : String → ℕ → ℕ → ProbeSpec
unfolding probe
http_probes path liveness_delay readiness_delay = record {
  liveness = probe ProbeType.http path liveness_delay 10;
  readiness = probe ProbeType.http path readiness_delay 5;
}

std_resources : String → String → String → String → ResourceRequirements
std_resources cpu_limit mem_limit cpu_req mem_req = record {
  limits = record { cpu = cpu_limit; memory = mem_limit };
  requests = record { cpu = cpu_req; memory = mem_req };
}

env_var : String → String → EnvVar
env_var name value = record { name = name; value = value }

-- `SecurityProfile::linux_server` and `SecurityProfile::non_root`.
profile : SecurityProfileType → ℕ → ℕ → SecurityProfile
profile profile_type user group = record {
  profile_type = profile_type;
  user = pos user;
  group = pos group;
  run_as_non_root = none;
  read_only_root_filesystem = none;
  allow_privilege_escalation = none;
  capabilities_add = [];
  capabilities_drop = [];
}

abbrev default_id : ℕ
default_id = 65534

abbrev no_image : ImageSpec
no_image = record { repository = ""; tag = ""; digest = ""; pull_policy = "" }

abbrev base_persistence : List PvcVolume → PersistenceSpec
base_persistence volumes = record {
  volumes = volumes;
  nfs_mounts = [];
  removed_default_volumes = [];
}

-- `linuxserver_base` and `nonroot_base`, which differ in the profile alone.
http_base : SecurityProfileType → ℤ → Bool → String → AppDefaults
unfolding pvc single_port_service http_probes std_resources env_var profile
http_base profile_type port downloads probe_path = record {
  image = no_image;
  service = single_port_service "http" port;
  security = profile profile_type default_id default_id;
  persistence = base_persistence (
      pvc "config" "/config" "1Gi"
      ∷ (if downloads then pvc "downloads" "/downloads" "100Gi" ∷ [] else []));
  probes = http_probes probe_path 30 10;
  resources =
      std_resources "1" (if downloads then "1Gi" else "512Mi") "100m"
        (if downloads then "256Mi" else "128Mi");
  uid = pos default_id;
  gid = pos default_id;
  env = env_var "TZ" "UTC" ∷ [];
  app_config = none;
}

sshd_base : ℤ → AppDefaults
unfolding pvc single_port_service tcp_probes std_resources env_var
sshd_base port = record {
  image = no_image;
  service = single_port_service "ssh" port;
  security = record {
    profile_type = custom;
    user = pos 0;
    group = pos 0;
    run_as_non_root = some false;
    read_only_root_filesystem = some false;
    allow_privilege_escalation = some false;
    capabilities_add = "CHOWN" ∷ "SETGID" ∷ "SETUID" ∷ "NET_BIND_SERVICE" ∷ "SYS_CHROOT" ∷ [];
    capabilities_drop = "ALL" ∷ [];
  };
  persistence = base_persistence (pvc "host-keys" "/etc/ssh/keys" "10Mi" ∷ []);
  probes = tcp_probes 30 10;
  resources = std_resources "500m" "256Mi" "100m" "128Mi";
  uid = pos 0;
  gid = pos 0;
  env = env_var "TZ" "UTC" ∷ [];
  app_config = none;
}

-- The `match img.security`.
base_for : AppImageDefaults → Result DefaultsError AppDefaults
unfolding http_base sshd_base
base_for img =
    if img.security == "linuxserver"
    then ok (http_base linux_server img.port img.downloads img.probe_path)
    else if img.security == "nonroot"
    then ok (http_base non_root img.port img.downloads img.probe_path)
    else if img.security == "sshd"
    then ok (sshd_base img.port)
    else err (unknown_security_profile img.security)

-- `find(|v| v.name == "config")` with a new mount path for the volume found.
relocate : String → List PvcVolume → Option (List PvcVolume)
relocate mount_path [] = none
relocate mount_path (v ∷ vs) =
    let later = relocate mount_path vs in
    if v.name == "config"
    then some (record v { mount_path = mount_path } ∷ vs)
    else elim later [ some ws ↦ some (v ∷ ws) | none ↦ none ]

move_config : AppType → String → AppDefaults → Result DefaultsError AppDefaults
unfolding relocate as_str
move_config app mount_path d = elim (relocate mount_path d.persistence.volumes) [
  | some volumes ↦ ok (record d { persistence = record d.persistence { volumes = volumes } })
  | none ↦ err (missing_config_volume (as_str app))
]

abbrev default_transmission : TransmissionConfig
default_transmission = record { settings = Workload.null; peer_port = none; auth = none }

-- The blocks on single app types; at most one of them applies.
adjust : AppType → AppDefaults → Result DefaultsError AppDefaults
unfolding move_config pvc std_resources env_var profile
adjust transmission d =
    ok (record d { app_config = some (AppConfig.transmission default_transmission) })
adjust subgen d = ok (record d {
  persistence = record d.persistence {
    volumes = d.persistence.volumes ++ pvc "models" "/subgen/models" "10Gi" ∷ [];
  };
  env = d.env ++ env_var "TRANSCRIBE_DEVICE" "cpu" ∷ env_var "WHISPER_MODEL" "medium" ∷ [];
  resources = std_resources "1" "2Gi" "100m" "512Mi";
})
adjust maintainerr d = do
  moved ← move_config maintainerr "/opt/data" d
  ok (record moved { resources = std_resources "1" "2Gi" "100m" "512Mi" })
adjust seerr d =
    move_config seerr "/app/config"
      (record d { uid = pos 1000; gid = pos 1000; security = profile non_root 1000 1000 })
adjust houndarr d = move_config houndarr "/data" d
adjust _ d = ok d

abbrev found : String → Option AppImageDefaults → Result DefaultsError AppImageDefaults
found app_name none = err (no_image_defaults app_name)
found app_name (some img) = ok img

module _ (image_defaults : String → Option AppImageDefaults) where
  unfoldable pub try_for_app : AppType → Result DefaultsError AppDefaults
  unfolding base_for adjust tcp_probes as_str
  try_for_app app = do
    img ← found (as_str app) (image_defaults (as_str app))
    base ← base_for img
    adjust app (record base {
      probes = if img.probe_type == "tcp" then tcp_probes 30 10 else base.probes;
      image = record {
        repository = img.repository;
        tag = img.tag;
        digest = "";
        pull_policy = "IfNotPresent";
      };
    })

  abbrev errors_of : Result DefaultsError AppDefaults → List DefaultsError → List DefaultsError
  errors_of (ok d) es = es
  errors_of (err e) es = e ∷ es

  collect_errors : List AppType → List DefaultsError
  collect_errors [] = []
  collect_errors (app ∷ apps) = errors_of (try_for_app app) (collect_errors apps)

  -- The joined message is the list of the errors.
  unfoldable pub validate_all : Result (List DefaultsError) (Unit {0})
  unfolding collect_errors
  validate_all =
      let errors = collect_errors all_apps in if is_empty errors then ok tt else err errors
