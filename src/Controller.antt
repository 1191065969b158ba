-- ===== src/Controller.antt =====
-- The pure parts of crates/servarr-operator/src/controller.rs, and its rpc_password.rs.
pub mod Notes
pub mod Drift
pub mod RpcPassword
pub mod Cleanup
