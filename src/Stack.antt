-- ===== src/Stack.antt =====
-- crates/servarr-operator/src/media_stack_controller.rs: the reconciliation of a media stack.
pub mod Kube
pub mod Orphans
pub mod Rollout
pub mod Reconcile
