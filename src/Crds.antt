-- ===== src/Crds.antt =====
-- crates/servarr-crds/src/v1alpha1: the custom resources and their pure operations.
pub mod AppType
pub mod Types
pub mod AppConfig
pub mod Spec
pub mod Defaults
pub mod Condition
pub mod Stack
