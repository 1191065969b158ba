-- ===== src/Examples.antt =====
-- Concrete inputs for the theorems, and what the theorems say of them.
pub mod Data
pub mod Defaults
pub mod DownloadHealth
pub mod Stack
pub mod Webhook
pub mod Controller
pub mod Rollout
pub mod Reconcile
