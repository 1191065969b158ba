-- ===== src/Resources.antt =====
-- crates/servarr-resources/src: the Kubernetes objects of an app.
pub mod Pvc
