-- ===== src/NodeController/Allowed.antt =====
-- A reconciliation of a node meets a policy that allows what its parts write and send.
use embewi_core.Base.{
  ◌≡◌, refl, ℕ, String, Bool, true, false, Option, none, some, Result, ok, err, ◌==◌, Bool-cases,
  inl, inr, is_not_found,
}
use embewi_core.Api.Meta.{ObjectKey, Bytes}
use embewi_core.Api.Node.{McuNode}
use embewi_core.Api.Kube.{Service, EndpointSlice}
use embewi_core.Agent.Protocol.{HttpRequest, empty_json, token_json}
use embewi_core.Agent.Http.{new}
use embewi_core.Deployment.Phase.{Outcome, done, requeue_after}
use embewi_core.Metrics.Calls.{remove_node-Emits}
use embewi_core.NodeController.Readiness.{heartbeat_expired, with_readiness}
use embewi_core.NodeController.Endpoints.{reconcile_service, reconcile_endpoint_slice}
use embewi_core.NodeController.Secrets.{McuNodeReconciler}
use embewi_core.NodeController.Tokens.{reconcile_token_rotation}
use embewi_core.NodeController.Tls.{reconcile_tls_cert}
use embewi_core.NodeController.Reboot.{with_reboot, reconcile_reboot_request}
use embewi_core.NodeController.Calls.{NodePolicy, posted, Keeps, if-Keeps}
use embewi_core.NodeController.Certificate.{
  IsNewCert, IsCurrentToken, AllowsCert, reconcile_tls_cert-Keeps,
}
use embewi_core.NodeController.Rotation.{IsRotation, reconcile_token_rotation-Keeps}
use embewi_core.NodeController.Restart.{
  requested_of, IsPending, IsRebooted, reconcile_reboot_request-Keeps,
}
use embewi_core.NodeController.Exposed.{
  Exposes, Routes, reconcile_service-Keeps, reconcile_endpoint_slice-Keeps,
}
use embewi_core.NodeController.Judged.{IsExpiry, is_expired_at_iff}
use embewi_core.NodeController.Answers.{IsPatched, IsLatest, reconcile_tls_cert-IsLatest}
use embewi_core.NodeController.Reconcile.{
  node_metrics_finalizer, step, reconcile_device, reconcile_connected, reconcile_patched,
  reconcile_live, with_finalizer, release, reconcile_deletion, reconcile_present, reconcile_found,
  reconcile_node,
}
use embewi_core.World.Env.{Env}
use embewi_core.World.Action.{World, M, pure, ◌>>=◌, get_node, patch_node_status}
use embewi_core.World.Emits.{same, more, Extends-trans}

module _ ⦃env : Env⦄ (S : Bool → McuNode → McuNode → Type 0) (H : HttpRequest → Type 0)
    (V : Service → Type 0) (E : EndpointSlice → Type 0) (r : McuNodeReconciler) where
  -- what a policy has to allow
  pub record Allows : Type 0 where
    pub judges :
        (node : McuNode) (expired : Bool)
        → IsExpiry node.status.last_heartbeat expired
        → S true node (with_readiness expired node)
    pub exposes : (node : McuNode) (s : Service) → IsPatched node → Exposes node s → V s
    pub routes : (node : McuNode) (e : EndpointSlice) → IsPatched node → Routes node e → E e
    pub rotates :
        (node : McuNode) (previous new_token : Bytes)
        → IsPatched node
        → IsRotation node previous new_token
        → H (posted (new node.status.ip previous) "/token" (token_json new_token))
    pub certifies :
        (node : McuNode) (cert key : Bytes)
        → IsPatched node
        → IsNewCert node cert key
        → AllowsCert S H V E node cert key
    pub reboots :
        (first node : McuNode) (before : World) (token : Bytes)
        → IsPatched first
        → (reconcile_tls_cert r first before).0 ≡ ok node
        → IsLatest first node
        → IsPending node
        → IsCurrentToken node token
        → H (posted (new node.status.ip token) "/reboot" empty_json)
    pub restarts :
        (node : McuNode)
        → IsPending node
        → IsRebooted node
        → S false node (with_reboot (requested_of node) node)

  step-Keeps :
      {A : Type 0} (what : String) (next : A → M Outcome) (answer : Result A) (w : World)
      → ((a : A) → answer ≡ ok a → (w : World) → Keeps S H V E (next a) w)
      → Keeps S H V E (step what next answer) w
  unfolding step
  step-Keeps what next (err e) w k = same
  step-Keeps what next (ok a) w k = k a refl w

  heartbeat_expired-Keeps : (last : Option ℕ) (w : World) → Keeps S H V E (heartbeat_expired last) w
  unfolding heartbeat_expired
  heartbeat_expired-Keeps none w = same
  heartbeat_expired-Keeps (some last) w = more tt same

  heartbeat_expired-IsExpiry :
      (last : Option ℕ) (w : World) → IsExpiry last (heartbeat_expired last w).0
  unfolding heartbeat_expired
  heartbeat_expired-IsExpiry none w = refl
  heartbeat_expired-IsExpiry (some last) w = (w.history, is_expired_at_iff last (env.now w.history))

  module _ (a : Allows) where
    reconcile_device-Keeps :
        (node : McuNode) (w : World) → IsPatched node → Keeps S H V E (reconcile_device r node) w
    unfolding reconcile_device
    reconcile_device-Keeps first w p =
        Extends-trans
          (reconcile_tls_cert-Keeps S H V E r first w (λ cert key. a.certifies first cert key p))
          (step-Keeps "reconcile tls cert" _ (reconcile_tls_cert r first w).0 _ (λ node is v.
            let latest = reconcile_tls_cert-IsLatest r first w node is in
            Extends-trans
              (reconcile_reboot_request-Keeps S H V E r node
                (λ token. a.reboots first node w token p is latest) (a.restarts node) v)
              (step-Keeps "reconcile reboot request" _ (reconcile_reboot_request r node v).0 _
                (λ _ _ w. same))))

    reconcile_connected-Keeps :
        (node : McuNode) (w : World) → IsPatched node → Keeps S H V E (reconcile_connected r node) w
    unfolding reconcile_connected
    reconcile_connected-Keeps node w p =
        Extends-trans (reconcile_service-Keeps S H V E node (λ s. a.exposes node s p) w) (
          step-Keeps "reconcile service" _ (reconcile_service node w).0 _ (λ _ _ w.
            Extends-trans (reconcile_endpoint_slice-Keeps S H V E node (λ e. a.routes node e p) w) (
              step-Keeps "reconcile endpointslice" _ (reconcile_endpoint_slice node w).0 _ (λ _ _ w.
                Extends-trans
                  (reconcile_token_rotation-Keeps S H V E r node
                    (λ previous new_token. a.rotates node previous new_token p) w)
                  (step-Keeps "reconcile token rotation" _ (reconcile_token_rotation r node w).0 _
                    (λ _ _ w. reconcile_device-Keeps node w p))))))

    reconcile_patched-Keeps :
        (answer : Result McuNode) (w : World)
        → ((node : McuNode) → answer ≡ ok node → IsPatched node)
        → Keeps S H V E (reconcile_patched r answer) w
    unfolding reconcile_patched
    reconcile_patched-Keeps (err e) w p = same
    reconcile_patched-Keeps (ok node) w p =
        if-Keeps S H V E (node.status.ip == "") (pure (requeue_after 10)) _ w same
          (reconcile_connected-Keeps node w (p node refl))

    reconcile_live-Keeps :
        (answer : Result McuNode) (w : World) → Keeps S H V E (reconcile_live r answer) w
    unfolding reconcile_live
    reconcile_live-Keeps (err e) w = same
    reconcile_live-Keeps (ok node) w =
        let (expired, v) = heartbeat_expired node.status.last_heartbeat w in
        let expiry = heartbeat_expired-IsExpiry node.status.last_heartbeat w in
        let (answer, u) = patch_node_status true node (with_readiness expired node) v in
        Extends-trans (heartbeat_expired-Keeps node.status.last_heartbeat w) (
          Extends-trans {h' = u.history} (more (a.judges node expired expiry) same) (
            reconcile_patched-Keeps answer u
              (λ n is. (v.history, (node, (expired, (expiry, is)))))))

    with_finalizer-Keeps : (node : McuNode) (w : World) → Keeps S H V E (with_finalizer r node) w
    unfolding with_finalizer
    with_finalizer-Keeps node w =
        elim (Bool-cases (env.add_finalizer node.finalizers node_metrics_finalizer).1) [
          | inl e ↦ rw (e) (more tt same)
          | inr e ↦ rw (e) same
        ]

    release-Keeps : (node : McuNode) (w : World) → Keeps S H V E (release r node) w
    unfolding release
    release-Keeps node w =
        Extends-trans ((remove_node-Emits (NodePolicy S H V E) (λ _ _. tt) node.spec.node_id).at w)
          (more tt same)

    reconcile_present-Keeps :
        (node : McuNode) (w : World) → Keeps S H V E (reconcile_present r node) w
    unfolding reconcile_present reconcile_deletion
    reconcile_present-Keeps node w =
        if-Keeps S H V E node.being_deleted _ (with_finalizer r node >>= reconcile_live r) w
          (if-Keeps S H V E (env.contains_finalizer node.finalizers node_metrics_finalizer) _
            (pure done) w (release-Keeps node w) same)
          (Extends-trans (with_finalizer-Keeps node w)
            (reconcile_live-Keeps (with_finalizer r node w).0 (with_finalizer r node w).1))

    reconcile_found-Keeps :
        (answer : Result McuNode) (w : World) → Keeps S H V E (reconcile_found r answer) w
    unfolding reconcile_found
    reconcile_found-Keeps (err e) w = elim (Bool-cases (is_not_found e)) [
      | inl f ↦ rw (f) same
      | inr f ↦ rw (f) same
    ]
    reconcile_found-Keeps (ok node) w = reconcile_present-Keeps node w

    pub reconcile_node-Keeps :
        (key : ObjectKey) (w : World) → Keeps S H V E (reconcile_node r key) w
    unfolding reconcile_node
    reconcile_node-Keeps key w =
        let (answer, u) = get_node key w in
        Extends-trans {h' = u.history} (more tt same) (reconcile_found-Keeps answer u)
