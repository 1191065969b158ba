-- ===== src/Crds/Types/Sync.antt =====
-- Health check, backup, cross-app sync and credential types of
-- crates/servarr-crds/src/v1alpha1/types.rs.
use servarr_operator.Prelude.{ℕ, String, Bool, Option}

pub record ApiHealthCheckSpec : Type 0 where
  pub enabled : Bool
  pub interval_seconds : Option ℕ  -- u32
  pub auto_remove_orphaned_torrents : Bool

pub record BackupSpec : Type 0 where
  pub enabled : Bool
  pub schedule : String
  pub retention_count : ℕ  -- u32

pub record ProwlarrSyncSpec : Type 0 where
  pub enabled : Bool
  pub namespace_scope : Option String
  pub auto_remove : Bool

pub record SeerrSyncSpec : Type 0 where
  pub enabled : Bool
  pub namespace_scope : Option String
  pub auto_remove : Bool

pub record BazarrSyncSpec : Type 0 where
  pub enabled : Bool
  pub namespace_scope : Option String
  pub auto_remove : Bool

pub record SubgenSyncSpec : Type 0 where
  pub enabled : Bool
  pub namespace_scope : Option String

pub record MaintainerrSyncSpec : Type 0 where
  pub enabled : Bool
  pub namespace_scope : Option String
  pub plex_token_secret : Option String

pub record CleanuparrSyncSpec : Type 0 where
  pub enabled : Bool
  pub namespace_scope : Option String

pub record HoundarrSyncSpec : Type 0 where
  pub enabled : Bool
  pub namespace_scope : Option String
  pub admin_credentials_secret : String

pub record AdminCredentialsSpec : Type 0 where
  pub secret_name : String
