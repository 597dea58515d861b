-- ===== src/NodeController.antt =====
-- internal/controller/mcunode_controller.go: the reconciler of McuNodes.
pub mod Readiness
pub mod Endpoints
pub mod Secrets
pub mod Tokens
pub mod Tls
pub mod Reboot
pub mod Calls
pub mod Certificate
pub mod Rotation
pub mod Restart
pub mod Exposed
pub mod Judged
pub mod Answers
pub mod Reconcile
pub mod Allowed
pub mod Kept
pub mod Served
pub mod Writes
pub mod Sound
pub mod Interleaved
pub mod Unsynced
pub mod Deletion
