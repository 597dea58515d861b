-- ===== src/Oci.antt =====
-- internal/oci/client.go: the client of the OCI registry.
pub mod Types
pub mod Blob
pub mod Options
pub mod Reference
pub mod References
pub mod Registry
pub mod Trust
