-- ===== src/Deployment/Binding.antt =====
-- internal/controller/mcudeployment_controller.go, phaseBinding and checkNotBusy.
use embewi_core.Base.{
  quoted, String, Bool, true, false, not, ◌&&◌, Option, none, some, List, [], ◌∷◌, Result, ok, err,
  str, number, error_text, no_message, plain, ◌<>◌, ◌==◌, if◌then◌else◌, length, Assoc, lookup,
  or_empty,
}
use embewi_core.Api.Node.{McuNode}
use embewi_core.Api.Deployment.{
  McuDeployment, McuDeploymentSpec, McuDeploymentPhase, pulling, failed,
}
use embewi_core.Deployment.Phase.{Outcome, error, set_phase, fail}
use embewi_core.World.Env.{Env}
use embewi_core.World.Action.{M, pure, ◌>>=◌, list_nodes, list_deployments}

-- every label that the selector asks for; a missing label reads as ""
unfoldable pub labels_match : Assoc String → Assoc String → Bool
unfolding lookup
labels_match [] labels = true
labels_match ((k, v) ∷ selector) labels =
    or_empty (lookup k labels) == v && labels_match selector labels

unfoldable pub node_matches : McuDeploymentSpec → McuNode → Bool
unfolding labels_match
node_matches spec n =
    if spec.node_name == ""
    then labels_match spec.node_selector n.labels
    else n.name == spec.node_name

unfoldable pub candidates : McuDeploymentSpec → List McuNode → List McuNode
unfolding node_matches
candidates spec [] = []
candidates spec (n ∷ ns) =
    let rest = candidates spec ns in if node_matches spec n then n ∷ rest else rest

abbrev pub is_failed : McuDeploymentPhase → Bool
is_failed failed = true
is_failed _ = false

-- a deployment that holds the node, other than the one named
unfoldable pub holds : String → String → McuDeployment → Bool
holds dep_name node_name d =
    not (d.name == dep_name) && d.status.bound_node == node_name && not (is_failed d.status.phase)

unfoldable pub find_holder : String → String → List McuDeployment → Option McuDeployment
unfolding holds
find_holder dep_name node_name [] = none
find_holder dep_name node_name (d ∷ ds) =
    if holds dep_name node_name d then some d else find_holder dep_name node_name ds

abbrev pub busy_error : String → Option McuDeployment → Result (Unit {0})
busy_error node_name none = ok tt
busy_error node_name (some d) = err (
    plain
      (str "node " <> quoted node_name <> str " déjà utilisé par McuDeployment " <> quoted d.name))

abbrev pub busy_in : String → String → Result (List McuDeployment) → Result (Unit {0})
busy_in dep_name node_name (err e) = err e
busy_in dep_name node_name (ok ds) = busy_error node_name (find_holder dep_name node_name ds)

module _ ⦃env : Env⦄ where
  unfoldable pub check_not_busy : McuDeployment → String → M (Result (Unit {0}))
  unfolding find_holder
  check_not_busy dep node_name = do
    ds ← list_deployments dep.namespace
    pure (busy_in dep.name node_name ds)

  unfoldable pub bind_to : McuDeployment → McuNode → Result (Unit {0}) → M Outcome
  unfolding fail set_phase
  bind_to dep n (err e) = fail dep "DeviceBusy" (error_text e)
  bind_to dep n (ok _) = set_phase dep pulling n.name no_message

  unfoldable pub bind_candidates : McuDeployment → List McuNode → M Outcome
  unfolding check_not_busy bind_to
  bind_candidates dep [] = fail dep "NoDeviceMatched" (str "aucun McuNode ne correspond")
  bind_candidates dep (n ∷ []) = do r ← check_not_busy dep n.name; bind_to dep n r
  bind_candidates dep (n ∷ m ∷ ns) =
      fail dep "AmbiguousBinding"
        (number (length (n ∷ m ∷ ns)) <> str " nodes correspondent, pin explicite requis")

  unfoldable pub bind_among : McuDeployment → Result (List McuNode) → M Outcome
  unfolding candidates bind_candidates
  bind_among dep (err e) = pure (error e)
  bind_among dep (ok ns) = bind_candidates dep (candidates dep.spec ns)

  unfoldable pub phase_binding : McuDeployment → M Outcome
  unfolding bind_among
  phase_binding dep = do ns ← list_nodes (some dep.namespace); bind_among dep ns
