-- ===== src/NodeController/Restart.antt =====
-- When reconcileRebootRequest reboots a device, and when it takes a request to be served.
use embewi_core.Base.{
  ◌≡◌, ◌≢◌, refl, String, Bool, true, false, ◌||◌, [], ◌∷◌, Result, ok, err, ◌==◌, eq_iff, or_empty,
  Bool-cases, inl, inr, lookup, arith,
}
use embewi_core.Api.Meta.{Bytes}
use embewi_core.Api.Node.{McuNode}
use embewi_core.Api.Kube.{Service, EndpointSlice}
use embewi_core.Agent.Protocol.{HttpRequest, empty_json}
use embewi_core.Agent.Http.{new}
use embewi_core.Agent.Client.{post_reboot}
use embewi_core.NodeController.Secrets.{McuNodeReconciler, current_token}
use embewi_core.NodeController.Reboot.{
  annotation_reboot_requested, with_reboot, record_reboot, after_request, request_reboot,
  reboot_for, reconcile_reboot_request,
}
use embewi_core.NodeController.Calls.{
  posted, Keeps, record_if-Keeps, current_token-Keeps, post_reboot-Keeps,
}
use embewi_core.NodeController.Certificate.{IsCurrentToken}
use embewi_core.World.Env.{Env}
use embewi_core.World.Action.{World}
use embewi_core.World.Emits.{same, more, Extends-trans}

-- the value of the annotation
abbrev pub requested_of : McuNode → String
requested_of node = or_empty (lookup annotation_reboot_requested node.annotations)

-- a reboot is asked for that was not served yet
abbrev pub IsPending : McuNode → Type 0
IsPending node = (requested_of node ≢ "") × (requested_of node ≢ node.status.last_reboot_requested)

module _ ⦃env : Env⦄ (node : McuNode) where
  -- the device accepted a reboot
  pub record IsRebooted : Type 0 where
    pub token : Bytes
    pub is_current : IsCurrentToken node token
    pub before : World
    pub accepted : (post_reboot (new node.status.ip token) before).0 ≡ ok tt

module _ ⦃env : Env⦄ (S : Bool → McuNode → McuNode → Type 0) (H : HttpRequest → Type 0)
    (V : Service → Type 0) (E : EndpointSlice → Type 0) (r : McuNodeReconciler) (node : McuNode)
    (reboots : (token : Bytes)
      → IsPending node
      → IsCurrentToken node token
      → H (posted (new node.status.ip token) "/reboot" empty_json))
    (writes : IsPending node
      → IsRebooted node
      → S false node (with_reboot (requested_of node) node)) where
  record_reboot-Keeps :
      (answer : Result McuNode) (w : World) → Keeps S H V E (record_reboot r answer) w
  unfolding record_reboot
  record_reboot-Keeps (err e) w = same
  record_reboot-Keeps (ok node) w = record_if-Keeps S H V E r node _ _ _ w

  after_request-Keeps :
      (answer : Result (Unit {0})) (w : World)
      → (answer ≡ ok tt → S false node (with_reboot (requested_of node) node))
      → Keeps S H V E (after_request r node (requested_of node) answer) w
  unfolding after_request
  after_request-Keeps (err e) w k = record_if-Keeps S H V E r node _ _ _ w
  after_request-Keeps (ok tt) w k = Extends-trans (more (k refl) same) (record_reboot-Keeps _ _)

  request_reboot-Keeps :
      (answer : Result Bytes) (w before : World)
      → (current_token node before).0 ≡ answer
      → IsPending node
      → Keeps S H V E (request_reboot r node (requested_of node) answer) w
  unfolding request_reboot
  request_reboot-Keeps (err e) w before is p = same
  request_reboot-Keeps (ok []) w before is p = same
  request_reboot-Keeps (ok (c ∷ token)) w before is p =
      let current : IsCurrentToken node (c ∷ token) = record {
        world = before;
        token_is = is;
        not_empty = λ e. cc;
      } in
      Extends-trans
        (post_reboot-Keeps S H V E (new node.status.ip (c ∷ token)) w
          (reboots (c ∷ token) p current))
        (after_request-Keeps _ _ (λ accepted.
          writes p
            (record { token = c ∷ token; is_current = current; before = w; accepted = accepted })))

  pub reconcile_reboot_request-Keeps :
      (w : World) → Keeps S H V E (reconcile_reboot_request r node) w
  unfolding reconcile_reboot_request reboot_for
  reconcile_reboot_request-Keeps w =
      elim (Bool-cases
        (requested_of node == "" || requested_of node == node.status.last_reboot_requested)) [
          | inl e ↦ rw (e) same
          | inr e ↦ rw (e) (
              Extends-trans (current_token-Keeps S H V E node w)
                (request_reboot-Keeps _ _ w refl (pending _ _ e)))
        ]
    where
      pending : (s t : String) → (s == "" || s == t) ≡ false → (s ≢ "") × (s ≢ t)
      pending s t h = (
        λ e. not_both _ (s == t) ((eq_iff s "").1 e) h,
        λ e. not_right (s == "") _ ((eq_iff s t).1 e) h,
      )
        where
          not_both : (a b : Bool) → a ≡ true → (a || b) ≡ false → ⊥
          not_both a b e h = ground arith

          not_right : (a b : Bool) → b ≡ true → (a || b) ≡ false → ⊥
          not_right a b e h = ground arith
