-- ===== src/Deployment/Reconcile.antt =====
-- internal/controller/mcudeployment_controller.go, Reconcile, and the watches that request it.
use embewi_core.Base.{
  Bool, true, false, ◌&&◌, List, [], ◌∷◌, Result, ok, err, is_not_found, ◌==◌, if◌then◌else◌,
}
use embewi_core.Api.Meta.{ObjectKey}
use embewi_core.Api.Node.{McuNode}
use embewi_core.Api.Deployment.{
  McuDeployment, McuConfigMap, McuDeploymentPhase, unset, binding, pulling, preparing, writing,
  activating, confirming, deployed, failed, other,
}
use embewi_core.Deployment.Phase.{Outcome, done, error}
use embewi_core.Deployment.Device.{McuDeploymentReconciler, key_of}
use embewi_core.Deployment.Binding.{phase_binding}
use embewi_core.Deployment.Ota.{phase_pulling, phase_preparing, phase_writing, phase_activating}
use embewi_core.Deployment.Confirm.{phase_confirming}
use embewi_core.Deployment.Deployed.{reconcile_deployed}
use embewi_core.World.Env.{Env}
use embewi_core.World.Action.{M, pure, ◌>>=◌, get_deployment, list_deployments}

module _ ⦃env : Env⦄ where
  unfoldable pub dispatch : McuDeploymentReconciler → McuDeployment → McuDeploymentPhase → M Outcome
  dispatch r dep failed = pure done
  dispatch r dep deployed = reconcile_deployed r dep
  dispatch r dep unset = phase_binding dep
  dispatch r dep binding = phase_binding dep
  dispatch r dep pulling = phase_pulling r dep
  dispatch r dep preparing = phase_preparing r dep
  dispatch r dep writing = phase_writing r dep
  dispatch r dep activating = phase_activating r dep
  dispatch r dep confirming = phase_confirming r dep
  dispatch r dep (other s) = pure done

  unfoldable pub reconcile_read : McuDeploymentReconciler → Result McuDeployment → M Outcome
  unfolding dispatch
  reconcile_read r (err e) = if is_not_found e then pure done else pure (error e)
  reconcile_read r (ok dep) = dispatch r dep dep.status.phase

  unfoldable pub reconcile : McuDeploymentReconciler → ObjectKey → M Outcome
  unfolding reconcile_read
  reconcile r req = do dep ← get_deployment req; reconcile_read r dep

-- whether a change of the node is of interest in this phase
abbrev pub waits_for_node : McuDeploymentPhase → Bool
waits_for_node confirming = true
waits_for_node deployed = true
waits_for_node _ = false

unfoldable pub requests_of_node : McuNode → List McuDeployment → List ObjectKey
requests_of_node node [] = []
requests_of_node node (dep ∷ deps) =
    let rest = requests_of_node node deps in
    if dep.status.bound_node == node.name && waits_for_node dep.status.phase
    then key_of dep ∷ rest
    else rest

unfoldable pub requests_of_config_map : McuConfigMap → List McuDeployment → List ObjectKey
requests_of_config_map cm [] = []
requests_of_config_map cm (dep ∷ deps) =
    let rest = requests_of_config_map cm deps in
    if dep.spec.config_map_ref == cm.name then key_of dep ∷ rest else rest

abbrev of_list :
    (List McuDeployment → List ObjectKey) → Result (List McuDeployment) → List ObjectKey
of_list f (err e) = []
of_list f (ok deps) = f deps

module _ ⦃env : Env⦄ where
  unfoldable pub node_to_deployments : McuNode → M (List ObjectKey)
  unfolding requests_of_node
  node_to_deployments node = do
    deps ← list_deployments node.namespace
    pure (of_list (requests_of_node node) deps)

  unfoldable pub config_map_to_deployments : McuConfigMap → M (List ObjectKey)
  unfolding requests_of_config_map
  config_map_to_deployments cm = do
    deps ← list_deployments cm.namespace
    pure (of_list (requests_of_config_map cm) deps)
