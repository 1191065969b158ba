-- ===== src/Crds/AppConfig.antt =====
-- crates/servarr-crds/src/v1alpha1/app_config.rs
use servarr_operator.Prelude.{String, Bool, Option, List}
use servarr_operator.Prelude.Int.{ℤ}
use servarr_operator.Crds.Types.Workload.{Value}

pub record UnpackerrArrInstance : Type 0 where
  pub url : String
  pub api_key_secret : String

pub record UnpackerrConfig : Type 0 where
  pub sonarr : Option UnpackerrArrInstance
  pub radarr : Option UnpackerrArrInstance
  pub lidarr : Option UnpackerrArrInstance
  pub readarr : Option UnpackerrArrInstance

pub record IndexerDefinition : Type 0 where
  pub name : String
  pub content : String

pub record ProwlarrConfig : Type 0 where
  pub custom_definitions : List IndexerDefinition

pub record SabnzbdConfig : Type 0 where
  pub host_whitelist : List String
  pub tar_unpack : Bool

pub record PeerPortConfig : Type 0 where
  pub port : ℤ
  pub host_port : Bool
  pub random_on_start : Bool
  pub random_low : ℤ
  pub random_high : ℤ

pub record TransmissionAuth : Type 0 where
  pub secret_name : String

pub record TransmissionConfig : Type 0 where
  pub settings : Value
  pub peer_port : Option PeerPortConfig
  pub auth : Option TransmissionAuth

pub data SshMode : Type 0 where
  shell sftp scp rsync restricted_rsync : SshMode

pub record RestrictedRsyncConfig : Type 0 where
  pub allowed_paths : List String

pub record SshUser : Type 0 where
  pub name : String
  pub uid : ℤ
  pub gid : ℤ
  pub mode : SshMode
  pub restricted_rsync : Option RestrictedRsyncConfig
  pub shell : Option String
  pub public_keys : String

pub record SshBastionConfig : Type 0 where
  pub users : List SshUser
  pub enable_password_auth : Bool
  pub tcp_forwarding : Bool
  pub gateway_ports : Bool
  pub motd : String
  pub disable_sftp : Bool
  pub sftp_chroot : String

-- The `f64` profile ids are only carried: they stand by their decimal text.
pub record SeerrServerDefaults4k : Type 0 where
  pub profile_id : String
  pub profile_name : String
  pub root_folder : String
  pub minimum_availability : Option String
  pub enable_season_folders : Option Bool

pub record SeerrServerDefaults : Type 0 where
  pub profile_id : String
  pub profile_name : String
  pub root_folder : String
  pub minimum_availability : Option String
  pub enable_season_folders : Option Bool
  pub four_k : Option SeerrServerDefaults4k

pub record SeerrConfig : Type 0 where
  pub sonarr : Option SeerrServerDefaults
  pub radarr : Option SeerrServerDefaults

pub data AppConfig : Type 0 where
  transmission : TransmissionConfig → AppConfig
  sabnzbd : SabnzbdConfig → AppConfig
  prowlarr : ProwlarrConfig → AppConfig
  ssh_bastion : SshBastionConfig → AppConfig
  seerr : SeerrConfig → AppConfig
  lidarr : AppConfig
  unpackerr : UnpackerrConfig → AppConfig
