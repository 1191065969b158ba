-- ===== src/Webhook.antt =====
-- The validating admission webhook, crates/servarr-operator/src/webhook.rs.
pub mod Quantity
pub mod Rejection
pub mod Rules
pub mod Validate
pub mod Namespace
pub mod Registry
pub mod Identity
pub mod Volumes
pub mod Ssh
pub mod Names
pub mod Schedule
