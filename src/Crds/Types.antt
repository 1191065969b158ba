-- ===== src/Crds/Types.antt =====
-- crates/servarr-crds/src/v1alpha1/types.rs
pub mod Image
pub mod Persistence
pub mod Gateway
pub mod Workload
pub mod Sync
pub mod Nfs
