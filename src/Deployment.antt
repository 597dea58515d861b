-- ===== src/Deployment.antt =====
-- internal/controller/mcudeployment_controller.go: the OTA cycle of a McuDeployment.
pub mod Conditions
pub mod Phase
pub mod Binding
pub mod Device
pub mod Config
pub mod Ota
pub mod Confirm
pub mod Deployed
pub mod Reconcile
pub mod Calls
pub mod ConfigFits
pub mod Fits
pub mod WriteFits
pub mod Watch
pub mod Uniform
pub mod Lifecycle
pub mod Readiness
pub mod Identity
pub mod Sends
pub mod Confirmed
pub mod Wanted
pub mod Bound
pub mod Checked
pub mod Wakes
pub mod Settled
