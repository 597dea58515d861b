-- ===== src/NodeController/Rotation.antt =====
-- Which tokens reconcileTokenRotation sends to a device.
use embewi_core.Base.{
  ◌≡◌, ◌≢◌, refl, Bool, [], ◌∷◌, Result, ok, err, ◌==◌, Bool-cases, inl, inr, is_not_found,
}
use embewi_core.Api.Meta.{Secret, Bytes}
use embewi_core.Api.Node.{McuNode}
use embewi_core.Api.Kube.{Service, EndpointSlice}
use embewi_core.Agent.Protocol.{HttpRequest, token_json}
use embewi_core.Agent.Http.{new}
use embewi_core.NodeController.Secrets.{McuNodeReconciler, key_of_ref, token_in}
use embewi_core.NodeController.Tokens.{record_rotation, rotate, rotate_in, reconcile_token_rotation}
use embewi_core.NodeController.Calls.{posted, Keeps, record_if-Keeps, rotate_token-Keeps}
use embewi_core.World.Call.{History}
use embewi_core.World.Env.{Env}
use embewi_core.World.Action.{World}
use embewi_core.World.Emits.{same, more, Extends-trans}

module _ ⦃env : Env⦄ (node : McuNode) where
  -- the node's own Secret holds both tokens
  pub record IsRotation (previous new_token : Bytes) : Type 0 where
    pub history : History
    pub secret : Secret
    pub secret_is : env.get_secret history (key_of_ref node node.spec.token_ref) ≡ ok secret
    pub previous_is : token_in "previousToken" secret ≡ previous
    pub token_is : token_in "token" secret ≡ new_token
    pub has_previous : previous ≢ []
    pub has_token : new_token ≢ []

module _ ⦃env : Env⦄ (S : Bool → McuNode → McuNode → Type 0) (H : HttpRequest → Type 0)
    (V : Service → Type 0) (E : EndpointSlice → Type 0) (r : McuNodeReconciler) (node : McuNode)
    (sends : (previous new_token : Bytes)
      → IsRotation node previous new_token
      → H (posted (new node.status.ip previous) "/token" (token_json new_token))) where
  record_rotation-Keeps :
      (answer : Result (Unit {0})) (w : World) → Keeps S H V E (record_rotation r node answer) w
  unfolding record_rotation
  record_rotation-Keeps (err e) w = record_if-Keeps S H V E r node _ _ _ w
  record_rotation-Keeps (ok tt) w = record_if-Keeps S H V E r node _ _ _ w

  rotate-Keeps :
      (previous new_token : Bytes) (w : World)
      → (previous ≢ [] → new_token ≢ [] → IsRotation node previous new_token)
      → Keeps S H V E (rotate r node previous new_token) w
  unfolding rotate
  rotate-Keeps [] new_token w a = same
  rotate-Keeps (c ∷ previous) [] w a = same
  rotate-Keeps (c ∷ previous) (d ∷ new_token) w a =
      Extends-trans
        (rotate_token-Keeps S H V E _ _ w
          (sends (c ∷ previous) (d ∷ new_token) (a (λ e. cc) (λ e. cc))))
        (record_rotation-Keeps _ _)

  rotate_in-Keeps :
      (answer : Result Secret) (h : History) (w : World)
      → env.get_secret h (key_of_ref node node.spec.token_ref) ≡ answer
      → Keeps S H V E (rotate_in r node answer) w
  unfolding rotate_in
  rotate_in-Keeps (err e) h w is = elim (Bool-cases (is_not_found e)) [
    | inl f ↦ rw (f) same
    | inr f ↦ rw (f) same
  ]
  rotate_in-Keeps (ok secret) h w is = rotate-Keeps _ _ w (λ has_previous has_token. record {
    history = h;
    secret = secret;
    secret_is = is;
    previous_is = refl;
    token_is = refl;
    has_previous = has_previous;
    has_token = has_token;
  })

  pub reconcile_token_rotation-Keeps :
      (w : World) → Keeps S H V E (reconcile_token_rotation r node) w
  unfolding reconcile_token_rotation
  reconcile_token_rotation-Keeps w = elim (Bool-cases (node.spec.token_ref.name == "")) [
    | inl e ↦ rw (e) same
    | inr e ↦ rw (e) (Extends-trans (more tt same) (rotate_in-Keeps _ w.history _ refl))
  ]
