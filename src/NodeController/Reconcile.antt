-- ===== src/NodeController/Reconcile.antt =====
-- internal/controller/mcunode_controller.go: Reconcile.
use embewi_core.Base.{String, true, Result, ok, err, is_not_found, wrap, str, ◌==◌, if◌then◌else◌}
use embewi_core.Api.Meta.{ObjectKey}
use embewi_core.Api.Node.{McuNode}
use embewi_core.Deployment.Phase.{Outcome, done, requeue_after, error, after_patch}
use embewi_core.Metrics.{remove_node}
use embewi_core.NodeController.Readiness.{heartbeat_expired, with_readiness}
use embewi_core.NodeController.Endpoints.{reconcile_service, reconcile_endpoint_slice}
use embewi_core.NodeController.Secrets.{McuNodeReconciler}
use embewi_core.NodeController.Tokens.{reconcile_token_rotation}
use embewi_core.NodeController.Tls.{reconcile_tls_cert}
use embewi_core.NodeController.Reboot.{reconcile_reboot_request}
use embewi_core.World.Env.{Env}
use embewi_core.World.Action.{M, pure, ◌>>=◌, ◌>>◌, get_node, patch_node_status, update_node}

abbrev pub node_metrics_finalizer : String
node_metrics_finalizer = "embewi.io/metrics-cleanup"

-- a step that fails ends the reconciliation
unfoldable pub step : {A : Type 0} → String → (A → M Outcome) → Result A → M Outcome
step what next (err e) = pure (error (wrap (str what) e))
step what next (ok a) = next a

module _ ⦃env : Env⦄ (r : McuNodeReconciler) where
  unfoldable pub reconcile_device : McuNode → M Outcome
  unfolding step reconcile_tls_cert reconcile_reboot_request
  reconcile_device node = do
    cert ← reconcile_tls_cert r node
    step "reconcile tls cert"
        (λ node. do
          reboot ← reconcile_reboot_request r node
          step "reconcile reboot request" (λ _. pure (requeue_after 10)) reboot)
        cert

  unfoldable pub reconcile_connected : McuNode → M Outcome
  unfolding step reconcile_device reconcile_service reconcile_endpoint_slice
      reconcile_token_rotation
  reconcile_connected node = do
    service ← reconcile_service node
    step "reconcile service"
        (λ _. do
          slice ← reconcile_endpoint_slice node
          step "reconcile endpointslice"
              (λ _. do
                rotation ← reconcile_token_rotation r node
                step "reconcile token rotation" (λ _. reconcile_device node) rotation)
              slice)
        service

  unfoldable pub reconcile_patched : Result McuNode → M Outcome
  unfolding reconcile_connected
  reconcile_patched (err e) = pure (error e)
  reconcile_patched (ok node) =
      if node.status.ip == "" then pure (requeue_after 10) else reconcile_connected node

  unfoldable pub reconcile_live : Result McuNode → M Outcome
  unfolding heartbeat_expired with_readiness reconcile_patched
  reconcile_live (err e) = pure (error e)
  reconcile_live (ok node) = do
    expired ← heartbeat_expired node.status.last_heartbeat
    answer ← patch_node_status true node (with_readiness expired node)
    reconcile_patched answer

  unfoldable pub with_finalizer : McuNode → M (Result McuNode)
  with_finalizer node =
      let (finalizers, is_added) = env.add_finalizer node.finalizers node_metrics_finalizer in
      if is_added then update_node (record node { finalizers = finalizers }) else pure (ok node)

  unfoldable pub release : McuNode → M Outcome
  unfolding remove_node
  release node = do
    remove_node node.spec.node_id
    answer ←
        update_node
          (record node { finalizers = env.remove_finalizer node.finalizers node_metrics_finalizer })
    pure (after_patch done answer)

  unfoldable pub reconcile_deletion : McuNode → M Outcome
  unfolding release
  reconcile_deletion node =
      if env.contains_finalizer node.finalizers node_metrics_finalizer
      then release node
      else pure done

  unfoldable pub reconcile_present : McuNode → M Outcome
  unfolding reconcile_deletion with_finalizer reconcile_live
  reconcile_present node =
      if node.being_deleted then reconcile_deletion node else with_finalizer node >>= reconcile_live

  unfoldable pub reconcile_found : Result McuNode → M Outcome
  unfolding reconcile_present
  reconcile_found (err e) = if is_not_found e then pure done else pure (error e)
  reconcile_found (ok node) = reconcile_present node

  unfoldable pub reconcile_node : ObjectKey → M Outcome
  unfolding reconcile_found
  reconcile_node key = do node ← get_node key; reconcile_found node
