-- ===== src/Deployment/Watch.antt =====
-- A reconciliation meets a policy that allows what its phase writes and sends: Confirming, Deployed,
-- and Reconcile's choice among the phases.
use embewi_core.Base.{
  refl, ℕ, ◌≡◌, String, Bool, false, Option, none, some, Result, ok, err, ◌==◌, lookup,
}
use embewi_core.Base.Int.{ℤ}
use embewi_core.Api.Meta.{ObjectKey, Bytes}
use embewi_core.Api.Node.{McuNode}
use embewi_core.Api.Deployment.{
  McuDeployment, McuDeploymentPhase, unset, binding, pulling, preparing, writing, activating,
  confirming, deployed, failed, other,
}
use embewi_core.Agent.Protocol.{Client, Payload, octets, empty_json, port_json}
use embewi_core.Agent.Client.{post_app_port, is_bad_port}
use embewi_core.Agent.Calls.{post_app_port-Policy}
use embewi_core.Deployment.Calls.{
  Fits, AllowsPhase, AllowsFail, set_phase-Fits, fail-Fits, phase_binding-Fits, node_client-Fits,
}
use embewi_core.Deployment.ConfigFits.{AllowsConfig, reconcile_config_only-Fits}
use embewi_core.Deployment.Fits.{
  AllowsPull, AllowsPreparing, phase_pulling-Fits, phase_preparing-Fits,
}
use embewi_core.Deployment.WriteFits.{AllowsActivating, phase_writing-Fits, phase_activating-Fits}
use embewi_core.Deployment.Device.{McuDeploymentReconciler, node_client}
use embewi_core.Deployment.Confirm.{
  check_timeout, fail_if_late, confirm_with, phase_confirming, is_confirmed_by, is_rolled_back,
  timed_out,
}
use embewi_core.Deployment.Phase.{annotation_confirming_since}
use embewi_core.Deployment.Deployed.{
  read_expiry, with_availability, port_posted, reconcile_app_port, config_if_referenced, after_port,
  port_with, port_diverges, deployed_patched, deployed_on, reconcile_deployed,
}
use embewi_core.Deployment.Reconcile.{dispatch}
use embewi_core.World.Env.{Env}
use embewi_core.World.Policy.{KeepsReadiness}
use embewi_core.World.Action.{time_now, get_node, patch_deployment_status}
use embewi_core.World.Emits.{same, more, Emits-bind, Emits-if}

module _ ⦃env : Env⦄ (Q : McuDeployment → McuDeployment → Type 0) (H : Payload → Type 0) where
  -- Confirming

  fail_if_late-Fits :
      AllowsFail Q H → (dep : McuDeployment) (s : String) (t : ℕ) → Fits Q H (fail_if_late dep s t)
  unfolding fail_if_late
  fail_if_late-Fits f dep s t =
      Emits-if (timed_out t (env.parse_rfc3339 s)) _ _ (λ _. fail-Fits Q H f dep _ _)
        (λ _. record { at = λ w. same })

  pub check_timeout-Fits :
      AllowsFail Q H → (dep : McuDeployment) (s : Option String) → Fits Q H (check_timeout dep s)
  unfolding check_timeout
  check_timeout-Fits f dep none = record { at = λ w. same }
  check_timeout-Fits f dep (some s) =
      Emits-bind time_now (fail_if_late dep s) (record { at = λ w. more tt same })
        (fail_if_late-Fits f dep s)

  confirm_with-Fits :
      AllowsPhase Q H deployed
      → AllowsFail Q H
      → (dep : McuDeployment) (r : Result (McuNode × Client)) → Fits Q H (confirm_with dep r)
  unfolding confirm_with
  confirm_with-Fits a f dep (err e) = record { at = λ w. same }
  confirm_with-Fits a f dep (ok (node, cli)) =
      Emits-if (is_confirmed_by node dep) _ _ (λ _. set_phase-Fits Q H deployed a dep _ _)
        (λ _.
          Emits-if (is_rolled_back node.status.state) _ _ (λ _. fail-Fits Q H f dep _ _)
            (λ _. check_timeout-Fits f dep (lookup annotation_confirming_since dep.annotations)))

  pub phase_confirming-Fits :
      AllowsPhase Q H deployed
      → AllowsFail Q H
      → (r : McuDeploymentReconciler) (dep : McuDeployment) → Fits Q H (phase_confirming r dep)
  unfolding phase_confirming
  phase_confirming-Fits a f r dep =
      Emits-bind (node_client r dep) (confirm_with dep) (node_client-Fits Q H r dep)
        (confirm_with-Fits a f dep)

  -- Deployed

  pub record AllowsDeployed : Type 0 where
    pub availability :
        (dep : McuDeployment) (expired : Bool) (state : String)
        → dep.status.phase ≡ deployed
        → Q dep (with_availability dep expired state)
    pub to_failed : AllowsFail Q H
    pub config : AllowsConfig Q H
    pub reboot : H empty_json
    pub port : (n : ℤ) → is_bad_port n ≡ false → H (port_json n)

  read_expiry-Fits : (t : Option ℕ) → Fits Q H (read_expiry t)
  unfolding read_expiry
  read_expiry-Fits none = record { at = λ w. same }
  read_expiry-Fits (some t) = record { at = λ w. more tt same }

  port_posted-Fits :
      (node : McuNode) (dep : McuDeployment) (r : Result (Unit {0}))
      → Fits Q H (port_posted node dep r)
  unfolding port_posted
  port_posted-Fits node dep (err e) = record { at = λ w. same }
  port_posted-Fits node dep (ok tt) =
      let kept : KeepsReadiness node
          (record node { status = record node.status { app_port = dep.spec.app_port } }) =
        record {
          same_ready = refl;
          same_state = refl;
          same_validated = refl;
          same_heartbeat = refl;
          same_conditions = refl;
        } in
      record { at = λ w. more tt (more kept same) }

  reconcile_app_port-Fits :
      AllowsDeployed
      → (cli : Client) (node : McuNode) (dep : McuDeployment)
      → Fits Q H (reconcile_app_port cli node dep)
  unfolding reconcile_app_port
  reconcile_app_port-Fits a cli node dep =
      Emits-bind (post_app_port cli dep.spec.app_port) (port_posted node dep)
        (post_app_port-Policy Q H cli dep.spec.app_port (a.port dep.spec.app_port))
        (port_posted-Fits node dep)

  config_if_referenced-Fits :
      AllowsDeployed
      → (r : McuDeploymentReconciler) (dep : McuDeployment) → Fits Q H (config_if_referenced r dep)
  unfolding config_if_referenced
  config_if_referenced-Fits a r dep =
      Emits-if (dep.spec.config_map_ref == "") _ _ (λ _. record { at = λ w. same })
        (λ _. reconcile_config_only-Fits Q H a.to_failed a.config a.reboot r dep)

  after_port-Fits :
      AllowsDeployed
      → (r : McuDeploymentReconciler) (dep : McuDeployment) (p : Result (Unit {0}))
      → Fits Q H (after_port r dep p)
  unfolding after_port
  after_port-Fits a r dep (err e) = record { at = λ w. same }
  after_port-Fits a r dep (ok tt) = config_if_referenced-Fits a r dep

  port_with-Fits :
      AllowsDeployed
      → (r : McuDeploymentReconciler) (node : McuNode) (dep : McuDeployment)
        (c : Result (McuNode × Client))
      → Fits Q H (port_with r node dep c)
  unfolding port_with
  port_with-Fits a r node dep (err e) = record { at = λ w. same }
  port_with-Fits a r node dep (ok (n, cli)) =
      Emits-bind (reconcile_app_port cli node dep) (after_port r dep)
        (reconcile_app_port-Fits a cli node dep) (after_port-Fits a r dep)

  deployed_patched-Fits :
      AllowsDeployed
      → (r : McuDeploymentReconciler) (node : McuNode) (p : Result McuDeployment)
      → Fits Q H (deployed_patched r node p)
  unfolding deployed_patched
  deployed_patched-Fits a r node (err e) = record { at = λ w. same }
  deployed_patched-Fits a r node (ok dep) =
      Emits-if (port_diverges dep node) _ _
        (λ _.
          Emits-bind (node_client r dep) (port_with r node dep) (node_client-Fits Q H r dep)
            (port_with-Fits a r node dep))
        (λ _. config_if_referenced-Fits a r dep)

  deployed_on-Fits :
      AllowsDeployed
      → (r : McuDeploymentReconciler) (dep : McuDeployment) (n : Result McuNode)
      → dep.status.phase ≡ deployed
      → Fits Q H (deployed_on r dep n)
  unfolding deployed_on
  deployed_on-Fits a r dep (err e) h = record { at = λ w. same }
  deployed_on-Fits a r dep (ok node) h =
      Emits-bind (read_expiry node.status.last_heartbeat) _
        (read_expiry-Fits node.status.last_heartbeat)
        (λ expired.
          Emits-bind (patch_deployment_status dep (with_availability dep expired node.status.state))
            (deployed_patched r node)
            (record { at = λ w. more (a.availability dep expired node.status.state h) same })
            (deployed_patched-Fits a r node))

  pub reconcile_deployed-Fits :
      AllowsDeployed
      → (r : McuDeploymentReconciler) (dep : McuDeployment) → dep.status.phase ≡ deployed
      → Fits Q H (reconcile_deployed r dep)
  unfolding reconcile_deployed
  reconcile_deployed-Fits a r dep h =
      let key : ObjectKey = record { name = dep.status.bound_node; namespace = dep.namespace } in
      Emits-bind (get_node key) (deployed_on r dep) (record { at = λ w. more tt same })
        (λ n. deployed_on-Fits a r dep n h)

  -- what each phase must be allowed
  abbrev pub Allows : McuDeploymentPhase → Type 0
  Allows unset = AllowsPhase Q H pulling × AllowsFail Q H
  Allows binding = AllowsPhase Q H pulling × AllowsFail Q H
  Allows pulling = AllowsPull Q H
  Allows preparing = AllowsPreparing Q H
  Allows writing = AllowsPhase Q H activating × ((x : Bytes) → H (octets x))
  Allows activating = AllowsActivating Q H
  Allows confirming = AllowsPhase Q H deployed × AllowsFail Q H
  Allows deployed = AllowsDeployed
  Allows failed = Unit
  Allows (other s) = Unit

  pub dispatch-Fits :
      (r : McuDeploymentReconciler) (dep : McuDeployment) (phase : McuDeploymentPhase)
      → Allows phase
      → dep.status.phase ≡ phase
      → Fits Q H (dispatch r dep phase)
  unfolding dispatch
  dispatch-Fits r dep unset a h = phase_binding-Fits Q H a.0 a.1 dep
  dispatch-Fits r dep binding a h = phase_binding-Fits Q H a.0 a.1 dep
  dispatch-Fits r dep pulling a h = phase_pulling-Fits Q H a r dep
  dispatch-Fits r dep preparing a h = phase_preparing-Fits Q H a r dep
  dispatch-Fits r dep writing a h = phase_writing-Fits Q H a.0 a.1 r dep
  dispatch-Fits r dep activating a h = phase_activating-Fits Q H a r dep
  dispatch-Fits r dep confirming a h = phase_confirming-Fits a.0 a.1 r dep
  dispatch-Fits r dep deployed a h = reconcile_deployed-Fits a r dep h
  dispatch-Fits r dep failed a h = record { at = λ w. same }
  dispatch-Fits r dep (other s) a h = record { at = λ w. same }
