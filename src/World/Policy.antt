-- ===== src/World/Policy.antt =====
-- A policy on the calls of a reconciliation of a deployment: what it may write in the status of a
-- deployment, and what it may send to a device. It writes only such a status of a node as leaves its
-- readiness alone; all other calls are free.
use embewi_core.Base.{◌≡◌}
use embewi_core.Api.Node.{McuNode}
use embewi_core.Api.Deployment.{McuDeployment}
use embewi_core.Agent.Protocol.{Payload}
use embewi_core.World.Call.{Call, deployment_status_patched, node_status_patched, http_sent}

-- what tells the readiness of a node is as it was
pub record KeepsReadiness (old new : McuNode) : Type 0 where
  pub same_ready : new.status.ready ≡ old.status.ready
  pub same_state : new.status.state ≡ old.status.state
  pub same_validated : new.status.ota_validated ≡ old.status.ota_validated
  pub same_heartbeat : new.status.last_heartbeat ≡ old.status.last_heartbeat
  pub same_conditions : new.status.conditions ≡ old.status.conditions

abbrev pub Policy : (McuDeployment → McuDeployment → Type 0) → (Payload → Type 0) → Call → Type 0
Policy Q H (deployment_status_patched old new) = Q old new
Policy Q H (http_sent r) = H r.body
Policy Q H (node_status_patched lock old new) = KeepsReadiness old new
Policy Q H _ = Unit
