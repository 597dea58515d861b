-- ===== src/Deployment/Deployed.antt =====
-- internal/controller/mcudeployment_controller.go, reconcileDeployed and reconcileAppPort.
use embewi_core.Base.{
  integer, ℕ, ◌-◌, ◌*◌, String, Bool, true, false, not, ◌&&◌, ◌||◌, Option, none, some, Result, ok,
  err, str, wrap, ◌<>◌, ◌==◌, ltb, if◌then◌else◌,
}
use embewi_core.Base.Int.{pos, eqz}
use embewi_core.Api.Meta.{Condition, condition_true, condition_false}
use embewi_core.Api.Node.{McuNode}
use embewi_core.Api.Deployment.{McuDeployment}
use embewi_core.Agent.Protocol.{Client}
use embewi_core.Agent.Client.{post_app_port}
use embewi_core.Deployment.Conditions.{
  condition, with_condition, set_conditions, set_ready_condition,
}
use embewi_core.Deployment.Phase.{Outcome, done, requeue_after, error}
use embewi_core.Deployment.Device.{McuDeploymentReconciler, key_of, node_client}
use embewi_core.Deployment.Config.{reconcile_config_only}
use embewi_core.Deployment.Confirm.{second}
use embewi_core.World.Call.{normal}
use embewi_core.World.Env.{Env}
use embewi_core.World.Action.{
  M, pure, ◌>>=◌, ◌>>◌, time_now, get_node, patch_deployment_status, patch_node_status,
  record_event,
}

abbrev pub heartbeat_timeout : ℕ
heartbeat_timeout = 10 * second

-- LastHeartbeat == nil || time.Since(LastHeartbeat) > HeartbeatTimeout
abbrev pub heartbeat_expired : ℕ → Option ℕ → Bool
heartbeat_expired now none = true
heartbeat_expired now (some t) = ltb heartbeat_timeout (now - t)

abbrev pub is_degraded : String → Bool
is_degraded state = state == "degraded" || (state == "rollback" || state == "failed")

-- the clock is read only where a heartbeat was received
unfoldable pub read_expiry : ⦃env : Env⦄ → Option ℕ → M Bool
read_expiry none = pure true
read_expiry (some t) = do now ← time_now; pure (heartbeat_expired now (some t))

unfoldable pub available_condition : Bool → String → Condition
available_condition expired state =
    if expired
    then condition "Available" condition_false "HeartbeatTimeout"
        (str "aucun heartbeat depuis plus de 10s")
    else if is_degraded state
    then condition "Available" condition_false "DeviceDegraded" (str "device state=" <> str state)
    else condition "Available" condition_true "WorkloadReady"
        (str "EndpointSlice.ready=true, workload joignable")

module _ ⦃env : Env⦄ where
  unfoldable pub with_availability : McuDeployment → Bool → String → McuDeployment
  unfolding set_ready_condition available_condition
  with_availability dep expired state = set_conditions dep (
      set_ready_condition
        (with_condition dep.status.conditions (available_condition expired state)))

  unfoldable pub port_posted : McuNode → McuDeployment → Result (Unit {0}) → M (Result (Unit {0}))
  port_posted node dep (err e) = pure (err (wrap (str "POST /app/port") e))
  port_posted node dep (ok _) = do
    patch_node_status false node
        (record node { status = record node.status { app_port = dep.spec.app_port } })
    record_event (key_of dep) normal "AppPortUpdated"
        (str "port applicatif reconfiguré à " <> integer dep.spec.app_port)
    pure (ok tt)

  unfoldable pub reconcile_app_port : Client → McuNode → McuDeployment → M (Result (Unit {0}))
  unfolding port_posted
  reconcile_app_port cli node dep = do
    r ← post_app_port cli dep.spec.app_port
    port_posted node dep r

  unfoldable pub config_if_referenced : McuDeploymentReconciler → McuDeployment → M Outcome
  config_if_referenced r dep =
      if dep.spec.config_map_ref == "" then pure done else reconcile_config_only r dep

  unfoldable pub after_port :
      McuDeploymentReconciler → McuDeployment → Result (Unit {0}) → M Outcome
  unfolding config_if_referenced
  after_port r dep (err e) = pure (requeue_after 30)
  after_port r dep (ok _) = config_if_referenced r dep

  -- reconcileAppPort works on the node that reconcileDeployed read, with the client of nodeClient
  unfoldable pub port_with :
      McuDeploymentReconciler → McuNode → McuDeployment → Result (McuNode × Client) → M Outcome
  unfolding after_port reconcile_app_port
  port_with r node dep (err e) = pure (requeue_after 30)
  port_with r node dep (ok (_, cli)) = do p ← reconcile_app_port cli node dep; after_port r dep p

  abbrev pub port_diverges : McuDeployment → McuNode → Bool
  port_diverges dep node =
      not (eqz dep.spec.app_port (pos 0)) && not (eqz dep.spec.app_port node.status.app_port)

  unfoldable pub deployed_patched :
      McuDeploymentReconciler → McuNode → Result McuDeployment → M Outcome
  unfolding port_with config_if_referenced
  deployed_patched r node (err e) = pure (error e)
  deployed_patched r node (ok dep) =
      if port_diverges dep node
      then (do c ← node_client r dep; port_with r node dep c)
      else config_if_referenced r dep

  unfoldable pub deployed_on : McuDeploymentReconciler → McuDeployment → Result McuNode → M Outcome
  unfolding deployed_patched with_availability read_expiry
  deployed_on r dep (err e) = pure (requeue_after 30)
  deployed_on r dep (ok node) = do
    expired ← read_expiry node.status.last_heartbeat
    p ← patch_deployment_status dep (with_availability dep expired node.status.state)
    deployed_patched r node p

  unfoldable pub reconcile_deployed : McuDeploymentReconciler → McuDeployment → M Outcome
  unfolding deployed_on
  reconcile_deployed r dep = do
    node ← get_node (record { name = dep.status.bound_node; namespace = dep.namespace })
    deployed_on r dep node
