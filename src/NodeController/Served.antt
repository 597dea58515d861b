-- ===== src/NodeController/Served.antt =====
-- How a token rotation ends, between the heartbeat server and the reconciler.
use embewi_core.Base.{
  ◌≡◌, ◌≢◌, refl, ap, ◌∙◌, true, [], ◌∷◌, ok, ◌==◌, eq_iff, Bool-cases, inl, inr, trim_space,
}
use embewi_core.Base.MapLaws.{lookup-erase}
use embewi_core.Api.Meta.{Secret}
use embewi_core.Api.Node.{McuNode}
use embewi_core.Heartbeat.Nodes.{Server}
use embewi_core.Heartbeat.Payload.{HeartbeatPayload}
use embewi_core.Heartbeat.Request.{IncomingRequest}
use embewi_core.Heartbeat.Server.{confirm_rotation, accept, authorized, of_node}
use embewi_core.Heartbeat.Tokens.{
  TokenMatch, current, has_previous, without_previous, clear_previous_token, validate_token,
}
use embewi_core.NodeController.Secrets.{McuNodeReconciler, key_of_ref, token_in}
use embewi_core.NodeController.Tokens.{rotate, rotate_in, reconcile_token_rotation}
use embewi_core.World.Call.{secret_read, secret_patched}
use embewi_core.World.Emits.{Extends, Any, Extends-Any, same}
use embewi_core.World.Made.{Made, Extends-Made}
use embewi_core.Heartbeat.Handled.{accept-Keeps}
use embewi_core.World.Retry.{RetryApi}
use embewi_core.World.Env.{Env}
use embewi_core.World.Action.{World}

token_in-without_previous :
    (secret : Secret) → token_in "previousToken" (without_previous secret) ≡ []
unfolding token_in without_previous trim_space
token_in-without_previous secret =
    rw (lookup-erase "previousToken" "previousToken" secret.secret_data) refl

module _ ⦃env : Env⦄ (r : McuNodeReconciler) (node : McuNode) where
  rotate_in-ended :
      (secret : Secret) (w : World) → rotate_in r node (ok (without_previous secret)) w ≡ (ok tt, w)
  unfolding rotate_in
  rotate_in-ended secret w =
      ap (λ t. rotate r node t (token_in "token" (without_previous secret)) w)
        (token_in-without_previous secret)
      ∙ (unfold rotate in refl)

  -- once the Secret of a node is as clearPreviousToken leaves it
  reconcile_token_rotation-idle :
      (secret : Secret) (w : World)
      → node.spec.token_ref.name ≢ ""
      → env.get_secret w.history (key_of_ref node node.spec.token_ref)
        ≡ ok (without_previous secret)
      → reconcile_token_rotation r node w ≡ (
        ok tt,
        record w { history = secret_read (key_of_ref node node.spec.token_ref) ∷ w.history },
      )
  unfolding reconcile_token_rotation
  reconcile_token_rotation-idle secret w own is =
      elim (Bool-cases (node.spec.token_ref.name == "")) [
        | inl e ↦ absurd (own ((eq_iff node.spec.token_ref.name "").0 e))
        | inr e ↦ rw (e, is) (rotate_in-ended secret _)
      ]

module _ ⦃env : Env⦄ ⦃api : RetryApi⦄ where
  accepts-Any :
      (s : Server) (req : IncomingRequest) (hb : HeartbeatPayload) (n : McuNode) (secret : Secret)
      (w : World)
      → Extends Any w.history (accept s req hb n w).1.history
  accepts-Any s req hb n secret w = Extends-Any (
      accept-Keeps (λ _ _ _. Unit) (λ _ _. Unit) Unit s req w.history _ hb n secret w same
        (record { status = λ _ _ _ _ _. tt; rotates = λ _ _. tt; gauges = λ _. tt }) refl)

  clears :
      (s : Server) (req : IncomingRequest) (hb : HeartbeatPayload) (n : McuNode) (secret : Secret)
      (m : TokenMatch) (w : World)
      → m ≡ current secret
      → has_previous secret ≡ true
      → Made
          (secret_patched secret (without_previous secret))
          w.history
          (authorized s req hb n m w).1.history
  unfolding authorized confirm_rotation clear_previous_token
  clears s req hb n secret m w e some_previous =
      rw (e, some_previous) (Extends-Made (accepts-Any s req hb n secret _))

  -- Take a node with a Secret of its own, whose previousToken is not empty, and a heartbeat of the node
  -- that validateToken matches with the current token of that Secret. Then handleHeartbeat, which
  -- has found the node, patches that Secret to the one without previousToken; and once the API server
  -- answers it so, reconcileTokenRotation reads it, sends nothing to the device, and returns no error.
  pub of_node-ends :
      (s : Server) (req : IncomingRequest) (hb : HeartbeatPayload) (r : McuNodeReconciler)
      (node : McuNode) (secret : Secret) (w later : World)
      → node.spec.token_ref.name ≢ ""
      → (validate_token s req.authorization node w).0 ≡ current secret
      → has_previous secret ≡ true
      → env.get_secret later.history (key_of_ref node node.spec.token_ref)
        ≡ ok (without_previous secret)
      → Made
          (secret_patched secret (without_previous secret))
          (validate_token s req.authorization node w).1.history
          (of_node s req hb (ok node) w).1.history
        × (reconcile_token_rotation r node later ≡ (
          ok tt,
          record later {
            history = secret_read (key_of_ref node node.spec.token_ref) ∷ later.history;
          },
        ))
  unfolding of_node
  of_node-ends s req hb r node secret w later own matched some_previous is = (
    clears s req hb node secret _ _ matched some_previous,
    reconcile_token_rotation-idle r node secret later own is,
  )
