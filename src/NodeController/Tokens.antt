-- ===== src/NodeController/Tokens.antt =====
-- internal/controller/mcunode_controller.go: reconcileTokenRotation.
use embewi_core.Base.{
  [], ◌∷◌, Result, ok, err, is_not_found, str, error_text, ◌<>◌, ◌==◌, if◌then◌else◌,
}
use embewi_core.Api.Meta.{Secret, Bytes}
use embewi_core.Api.Node.{McuNode}
use embewi_core.Agent.Http.{new}
use embewi_core.Agent.Client.{rotate_token}
use embewi_core.NodeController.Secrets.{McuNodeReconciler, record_if, key_of_ref, token_in}
use embewi_core.World.Call.{normal, warning}
use embewi_core.World.Env.{Env}
use embewi_core.World.Action.{M, pure, ◌>>=◌, ◌>>◌, get_secret}

unfoldable pub record_rotation : McuNodeReconciler → McuNode → Result (Unit {0}) → M (Unit {0})
unfolding record_if
record_rotation r node (err e) = record_if r node warning "TokenRotationFailed" (
    str "POST /token a échoué : "
    <> error_text e
    <> str " (nouvelle tentative au prochain reconcile)")
record_rotation r node (ok tt) =
    record_if r node normal "TokenRotationApplied"
      (str "POST /token accepté par le device ; confirmation attendue par heartbeat (newToken)")

module _ ⦃env : Env⦄ where
  -- from the previous token to the new one; an empty one stops it
  unfoldable pub rotate : McuNodeReconciler → McuNode → Bytes → Bytes → M (Result (Unit {0}))
  unfolding record_rotation new
  rotate r node [] new_token = pure (ok tt)
  rotate r node (c ∷ previous) [] = pure (ok tt)
  rotate r node (c ∷ previous) (d ∷ new_token) = do
    answer ← rotate_token (new node.status.ip (c ∷ previous)) (d ∷ new_token)
    record_rotation r node answer
    pure (ok tt)

  unfoldable pub rotate_in : McuNodeReconciler → McuNode → Result Secret → M (Result (Unit {0}))
  unfolding rotate token_in
  rotate_in r node (err e) = if is_not_found e then pure (ok tt) else pure (err e)
  rotate_in r node (ok secret) =
      rotate r node (token_in "previousToken" secret) (token_in "token" secret)

  unfoldable pub reconcile_token_rotation : McuNodeReconciler → McuNode → M (Result (Unit {0}))
  unfolding rotate_in key_of_ref
  reconcile_token_rotation r node =
      if node.spec.token_ref.name == ""
      then pure (ok tt)
      else do secret ← get_secret (key_of_ref node node.spec.token_ref); rotate_in r node secret
