-- ===== src/NodeController/Reboot.antt =====
-- internal/controller/mcunode_controller.go: reconcileRebootRequest.
use embewi_core.Base.{
  String, false, ◌||◌, [], ◌∷◌, Result, ok, err, wrap, or_empty, str, error_text, ◌<>◌, ◌==◌,
  if◌then◌else◌, lookup,
}
use embewi_core.Api.Meta.{Bytes}
use embewi_core.Api.Node.{McuNode}
use embewi_core.Agent.Http.{new}
use embewi_core.Agent.Client.{post_reboot}
use embewi_core.NodeController.Secrets.{McuNodeReconciler, record_if, current_token}
use embewi_core.World.Call.{normal, warning}
use embewi_core.World.Env.{Env}
use embewi_core.World.Action.{M, pure, ◌>>=◌, ◌>>◌, patch_node_status}

abbrev pub annotation_reboot_requested : String
annotation_reboot_requested = "embewi.io/reboot-requested"

abbrev pub with_reboot : String → McuNode → McuNode
with_reboot requested node = record node {
  status = record node.status { last_reboot_requested = requested };
}

unfoldable pub record_reboot : McuNodeReconciler → Result McuNode → M (Result (Unit {0}))
unfolding record_if
record_reboot r (err e) = pure (err (wrap (str "patch LastRebootRequested") e))
record_reboot r (ok node) = do
  record_if r node normal "RebootRequested" (
      str "reboot déclenché à la demande (annotation "
      <> str annotation_reboot_requested
      <> str ")")
  pure (ok tt)

module _ ⦃env : Env⦄ where
  unfoldable pub after_request :
      McuNodeReconciler → McuNode → String → Result (Unit {0}) → M (Result (Unit {0}))
  unfolding record_reboot record_if
  after_request r node requested (err e) = do
    record_if r node warning "RebootRequestFailed" (
        str "POST /reboot a échoué : "
        <> error_text e
        <> str " (nouvelle tentative au prochain reconcile)")
    pure (ok tt)
  after_request r node requested (ok tt) = do
    answer ← patch_node_status false node (with_reboot requested node)
    record_reboot r answer

  unfoldable pub request_reboot :
      McuNodeReconciler → McuNode → String → Result Bytes → M (Result (Unit {0}))
  unfolding after_request new
  request_reboot r node requested (err e) = pure (err e)
  request_reboot r node requested (ok []) = pure (ok tt)
  request_reboot r node requested (ok (c ∷ token)) = do
    answer ← post_reboot (new node.status.ip (c ∷ token))
    after_request r node requested answer

  unfoldable pub reboot_for : McuNodeReconciler → McuNode → String → M (Result (Unit {0}))
  unfolding request_reboot current_token
  reboot_for r node requested =
      if requested == "" || requested == node.status.last_reboot_requested
      then pure (ok tt)
      else do token ← current_token node; request_reboot r node requested token

  unfoldable pub reconcile_reboot_request : McuNodeReconciler → McuNode → M (Result (Unit {0}))
  unfolding reboot_for lookup
  reconcile_reboot_request r node =
      reboot_for r node (or_empty (lookup annotation_reboot_requested node.annotations))
