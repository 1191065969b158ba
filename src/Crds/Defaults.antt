-- ===== src/Crds/Defaults.antt =====
-- crates/servarr-crds/src/v1alpha1/defaults.rs: compiled defaults and the resolution of the
-- persistence of an app.
pub mod Paths
pub mod Collisions
pub mod Reserved
pub mod Resolve
pub mod Compiled
