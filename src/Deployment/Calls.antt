-- ===== src/Deployment/Calls.antt =====
-- A reconciliation meets a policy that allows what it writes and sends: phases, failures, the
-- binding, and the client of a device.
use embewi_core.Base.{
  refl, Option-cases, inl, inr, lookup, ◌==◌, String, Bool, true, false, some, List, [], ◌∷◌,
  Result, ok, err, Message,
}
use embewi_core.Api.Meta.{ObjectKey}
use embewi_core.Api.Node.{McuNode}
use embewi_core.Api.Deployment.{McuDeployment, McuDeploymentPhase, pulling}
use embewi_core.Agent.Protocol.{InfoResponse, Payload}
use embewi_core.Deployment.Phase.{
  annotation_confirming_since, stamp_confirming, stamp_if, in_phase, write_phase, set_phase,
  failed_with, fail, is_confirming,
}
use embewi_core.Deployment.Binding.{
  bind_to, bind_candidates, bind_among, candidates, check_not_busy, phase_binding,
}
use embewi_core.Deployment.Device.{
  McuDeploymentReconciler, node_token, client_for, node_client, with_info, persist_node_info,
}
use embewi_core.World.Env.{Env}
use embewi_core.World.Action.{M, get_node, list_nodes}
use embewi_core.World.Emits.{same, more, Emits, Emits-bind, Emits-if}
use embewi_core.World.Policy.{Policy, KeepsReadiness}

module _ ⦃env : Env⦄ (Q : McuDeployment → McuDeployment → Type 0) (H : Payload → Type 0) where
  abbrev pub Fits : {A : Type 0} → M A → Type 0
  Fits m = Emits (Policy Q H) m

  -- the policy allows a phase to be written, and a failure
  abbrev pub AllowsPhase : McuDeploymentPhase → Type 0
  AllowsPhase phase =
      (dep : McuDeployment) (bound_node : String) (msg : Message)
      → Q dep (in_phase dep phase bound_node msg)

  abbrev pub AllowsFail : Type 0
  AllowsFail =
      (dep : McuDeployment) (reason : String) (msg : Message) → Q dep (failed_with dep reason msg)

  pub stamp_if-Fits : (b : Bool) (dep : McuDeployment) → Fits (stamp_if b dep)
  unfolding stamp_if
  stamp_if-Fits false dep = record { at = λ w. same }
  stamp_if-Fits true dep =
      elim (Option-cases (lookup annotation_confirming_since dep.annotations)) [
        | inl e ↦ rw (e, stamp_confirming) (record { at = λ w. more tt (more tt same) })
        | inr (s, e) ↦ rw (e, stamp_confirming) (record { at = λ w. same })
      ]

  write_phase-Fits :
      (phase : McuDeploymentPhase)
      → AllowsPhase phase
      → (bound_node : String) (msg : Message) (r : Result McuDeployment)
      → Fits (write_phase phase bound_node msg r)
  unfolding write_phase
  write_phase-Fits phase a bound_node msg (err e) = record { at = λ w. same }
  write_phase-Fits phase a bound_node msg (ok dep) = record {
    at = λ w. more (a dep bound_node msg) same;
  }

  pub set_phase-Fits :
      (phase : McuDeploymentPhase)
      → AllowsPhase phase
      → (dep : McuDeployment) (bound_node : String) (msg : Message)
      → Fits (set_phase dep phase bound_node msg)
  unfolding set_phase
  set_phase-Fits phase a dep bound_node msg =
      Emits-bind _ _ (stamp_if-Fits (is_confirming phase) dep)
        (write_phase-Fits phase a bound_node msg)

  pub fail-Fits :
      AllowsFail
      → (dep : McuDeployment) (reason : String) (msg : Message) → Fits (fail dep reason msg)
  unfolding fail
  fail-Fits f dep reason msg = record { at = λ w. more (f dep reason msg) same }

  -- Binding

  bind_to-Fits :
      AllowsPhase pulling
      → AllowsFail
      → (dep : McuDeployment) (n : McuNode) (r : Result (Unit {0})) → Fits (bind_to dep n r)
  unfolding bind_to
  bind_to-Fits a f dep n (err e) = fail-Fits f dep _ _
  bind_to-Fits a f dep n (ok _) = set_phase-Fits pulling a dep _ _

  check_not_busy-Fits : (dep : McuDeployment) (name : String) → Fits (check_not_busy dep name)
  unfolding check_not_busy
  check_not_busy-Fits dep name = record { at = λ w. more tt same }

  bind_candidates-Fits :
      AllowsPhase pulling
      → AllowsFail
      → (dep : McuDeployment) (ns : List McuNode) → Fits (bind_candidates dep ns)
  unfolding bind_candidates
  bind_candidates-Fits a f dep [] = fail-Fits f dep _ _
  bind_candidates-Fits a f dep (n ∷ []) =
      Emits-bind _ _ (check_not_busy-Fits dep n.name) (bind_to-Fits a f dep n)
  bind_candidates-Fits a f dep (n ∷ m ∷ ns) = fail-Fits f dep _ _

  bind_among-Fits :
      AllowsPhase pulling
      → AllowsFail
      → (dep : McuDeployment) (r : Result (List McuNode)) → Fits (bind_among dep r)
  unfolding bind_among
  bind_among-Fits a f dep (err e) = record { at = λ w. same }
  bind_among-Fits a f dep (ok ns) = bind_candidates-Fits a f dep (candidates dep.spec ns)

  pub phase_binding-Fits :
      AllowsPhase pulling → AllowsFail → (dep : McuDeployment) → Fits (phase_binding dep)
  unfolding phase_binding
  phase_binding-Fits a f dep =
      Emits-bind (list_nodes (some dep.namespace)) (bind_among dep)
        (record { at = λ w. more tt same }) (bind_among-Fits a f dep)

  -- the client of a device

  node_token-Fits : (r : McuDeploymentReconciler) (node : McuNode) → Fits (node_token r node)
  unfolding node_token
  node_token-Fits r node = record { at = λ w. more tt same }

  client_for-Fits :
      (r : McuDeploymentReconciler) (name : String) (n : Result McuNode)
      → Fits (client_for r name n)
  unfolding client_for
  client_for-Fits r name (err e) = record { at = λ w. same }
  client_for-Fits r name (ok node) =
      Emits-if (node.status.ip == "") _ _ (λ _. record { at = λ w. same })
        (λ _. record { at = λ w. (node_token-Fits r node).at w })

  pub node_client-Fits :
      (r : McuDeploymentReconciler) (dep : McuDeployment) → Fits (node_client r dep)
  unfolding node_client
  node_client-Fits r dep =
      let key : ObjectKey = record { name = dep.status.bound_node; namespace = dep.namespace } in
      Emits-bind (get_node key) (client_for r dep.status.bound_node)
        (record { at = λ w. more tt same }) (client_for-Fits r dep.status.bound_node)

  pub persist_node_info-Fits :
      (node : McuNode) (info : InfoResponse) → Fits (persist_node_info node info)
  unfolding persist_node_info with_info
  persist_node_info-Fits node info =
      let kept : KeepsReadiness node (with_info node info) = record {
        same_ready = refl;
        same_state = refl;
        same_validated = refl;
        same_heartbeat = refl;
        same_conditions = refl;
      } in
      record { at = λ w. more kept same }
