-- ===== src/Examples/Data.antt =====
-- Sample objects: app specs, volumes, torrents and a Transmission client.
use servarr_operator.Prelude.{
  ℕ, zero, suc, String, Bool, true, false, Option, none, some, List, [], ◌∷◌, ◌==◌, ok,
  if◌then◌else◌,
}
use servarr_operator.Prelude.Int.{pos}
use servarr_operator.Crds.AppType.{AppType}
use servarr_operator.Crds.Spec.{ServarrAppSpec}
use servarr_operator.Crds.Types.Persistence.{PvcVolume, NfsMount, PersistenceSpec}
use servarr_operator.Crds.Types.Sync.{ApiHealthCheckSpec}
use servarr_operator.Crds.Condition.{Condition, ServarrAppStatus}
use servarr_operator.Crds.Defaults.Compiled.{AppImageDefaults}
use servarr_operator.DownloadHealth.{TorrentInfo}
use servarr_operator.DownloadHealth.Remediate.{Client, RemediationOutcome}
use servarr_operator.DownloadHealth.Check.{App, Access}

abbrev pub volume : String → String → PvcVolume
volume name path = record {
  name = name;
  mount_path = path;
  access_mode = "ReadWriteOnce";
  size = "1Gi";
  storage_class = "";
  existing_claim_name = none;
}

abbrev pub media_mount : NfsMount
media_mount = record {
  name = "media";
  server = "nfs";
  path = "/export";
  mount_path = "/media";
  read_only = false;
}

abbrev pub compiled : PersistenceSpec
compiled = record {
  volumes = volume "config" "/config" ∷ volume "downloads" "/downloads" ∷ [];
  nfs_mounts = [];
  removed_default_volumes = [];
}

-- An override with a mount and a tombstone.
abbrev pub override : PersistenceSpec
override = record {
  volumes = volume "books" "/books" ∷ [];
  nfs_mounts = media_mount ∷ [];
  removed_default_volumes = "downloads" ∷ [];
}

abbrev pub spec_of : AppType → Option PersistenceSpec → Option ApiHealthCheckSpec → ServarrAppSpec
spec_of app persistence api_health_check = record {
  app = app;
  instance_label = none;
  image = none;
  uid = none;
  gid = none;
  security = none;
  service = none;
  service_name = none;
  gateway = none;
  resources = none;
  persistence = persistence;
  env = [];
  probes = none;
  scheduling = none;
  network_policy = none;
  network_policy_config = none;
  app_config = none;
  api_key_secret = none;
  api_health_check = api_health_check;
  backup = none;
  image_pull_secrets = none;
  pod_annotations = none;
  gpu = none;
  prowlarr_sync = none;
  seerr_sync = none;
  bazarr_sync = none;
  subgen_sync = none;
  maintainerr_sync = none;
  cleanuparr_sync = none;
  houndarr_sync = none;
  admin_credentials = none;
}

-- A table with one row for all apps.
abbrev pub image_defaults : String → Option AppImageDefaults
image_defaults app_name = some (record {
  repository = "linuxserver/app";
  tag = "1.0";
  port = pos 8989;
  security = "linuxserver";
  downloads = true;
  probe_path = "/ping";
  probe_type = "http";
})

abbrev pub condition : String → String → Condition
condition condition_type status = record {
  condition_type = condition_type;
  status = status;
  reason = "Reason";
  message = "";
  last_transition_time = "t1";
}

abbrev pub status : ServarrAppStatus
status = record {
  ready = true;
  ready_replicas = pos 1;
  observed_generation = pos 1;
  conditions = condition "Ready" "True" ∷ condition "Degraded" "False" ∷ [];
  backup_status = none;
}

-- Two readable timestamps, ten seconds apart.
abbrev pub parse : String → Option ℕ
parse s = if s == "t1" then some 1000000000 else if s == "t2" then some 11000000000 else none

-- A torrent by its error and its fraction done, counted in percent.
abbrev pub torrent : String → ℕ → Option ℕ → String → TorrentInfo ℕ
torrent hash code percent dir = record {
  id = pos 1;
  name = hash;
  error = some (pos code);
  error_string = "";
  status = some (pos 0);
  hash_string = hash;
  percent_done = percent;
  download_dir = dir;
}

abbrev pub is_zero : ℕ → Bool
is_zero zero = true
is_zero (suc n) = false

abbrev pub seeding : TorrentInfo ℕ
seeding = record (torrent "cc" 0 (some 100) "/data/") { status = some (pos 6) }

-- Two torrents that lost their data, beside one that has it.
abbrev pub torrents : List (TorrentInfo ℕ)
torrents = torrent "aa" 3 (some 0) "/data" ∷ torrent "bb" 3 (some 40) "/data" ∷ seeding ∷ []

abbrev pub client : Client ℕ
client = record {
  list_all = ok torrents;
  verify = λ hashes. true;
  poll = λ n hashes. some (torrent "aa" 3 (some 0) "/data" ∷ torrent "bb" 3 (some 40) "/data" ∷ []);
  remove = λ hashes. true;
}

abbrev pub health_check : ApiHealthCheckSpec
health_check = record {
  enabled = true;
  interval_seconds = some 5;
  auto_remove_orphaned_torrents = true;
}

abbrev pub app : App
app = record { spec = spec_of AppType.transmission none (some health_check); status = some status }

abbrev pub access : Access ℕ
access = record { client = client; credentials_incomplete = false; credentials_error = none }

abbrev pub outcome : RemediationOutcome
outcome = record {
  removed = "aa" ∷ [];
  confirmed_orphaned = [];
  still_pending = [];
  settled_with_data = "bb" ∷ [];
  settled_unknown = [];
  rpc_failure = none;
}
