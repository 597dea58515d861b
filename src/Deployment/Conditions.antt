-- ===== src/Deployment/Conditions.antt =====
-- internal/controller/mcudeployment_controller.go, setReadyCondition and setDeploymentConditions.
use embewi_core.Base.{
  String, Bool, true, false, ◌&&◌, Option, none, some, List, Message, str, ◌<>◌, if◌then◌else◌,
}
use embewi_core.Api.Meta.{
  Condition, ConditionStatus, condition_true, condition_false, condition_unknown,
}
use embewi_core.Api.Deployment.{
  McuDeployment, McuDeploymentPhase, unset, binding, pulling, preparing, writing, activating,
  confirming, deployed, failed, other,
}
use embewi_core.World.Env.{Env}

-- the text of a phase
unfoldable pub phase_name : McuDeploymentPhase → String
phase_name unset = ""
phase_name binding = "Binding"
phase_name pulling = "Pulling"
phase_name preparing = "Preparing"
phase_name writing = "Writing"
phase_name activating = "Activating"
phase_name confirming = "Confirming"
phase_name deployed = "Deployed"
phase_name failed = "Failed"
phase_name (other s) = s

abbrev pub condition : String → ConditionStatus → String → Message → Condition
condition type status reason message = record {
  type = type;
  status = status;
  reason = reason;
  message = message;
}

abbrev pub is_status : ConditionStatus → Option Condition → Bool
is_status s none = false
is_status condition_true (some c) = elim c.status [ condition_true ↦ true | _ ↦ false ]
is_status condition_false (some c) = elim c.status [ condition_false ↦ true | _ ↦ false ]
is_status condition_unknown (some c) = elim c.status [ condition_unknown ↦ true | _ ↦ false ]

module _ ⦃env : Env⦄ where
  abbrev pub with_condition : List Condition → Condition → List Condition
  with_condition cs c = env.conditions.set_status_condition cs c

  abbrev pub find_condition : List Condition → String → Option Condition
  find_condition cs t = env.conditions.find_status_condition cs t

  -- `dep.Status.Conditions` with the conditions of a list set
  abbrev pub set_conditions : McuDeployment → List Condition → McuDeployment
  set_conditions dep cs = record dep { status = record dep.status { conditions = cs } }

  -- the condition that setReadyCondition sets: Ready is what Progressing and Available say
  unfoldable pub ready_condition : List Condition → Condition
  ready_condition cs =
      if is_status condition_false (find_condition cs "Progressing")
        && is_status condition_true (find_condition cs "Available")
      then condition "Ready" condition_true "DeploymentReady"
          (str "Progressing=False et Available=True")
      else condition "Ready" condition_false "DeploymentNotReady"
          (str "déploiement en cours ou device non disponible")

  unfoldable pub set_ready_condition : List Condition → List Condition
  unfolding ready_condition
  set_ready_condition cs = with_condition cs (ready_condition cs)

  unfoldable pub phase_conditions : McuDeploymentPhase → List Condition → List Condition
  unfolding phase_name
  phase_conditions deployed cs =
      with_condition
        (with_condition cs (
          condition "Progressing" condition_false "DeploymentComplete"
            (str "OTA terminé, firmware stable")))
        (condition "Available" condition_true "WorkloadReady"
          (str "EndpointSlice.ready=true, workload joignable"))
  phase_conditions confirming cs =
      with_condition
        (with_condition cs (
          condition "Progressing" condition_true "OTAInProgress"
            (str "attente confirmation device (pending_verify)")))
        (condition "Available" condition_false "PendingVerification"
          (str "image non encore validée par le device"))
  phase_conditions phase cs = with_condition cs (
      condition "Progressing" condition_true "OTAInProgress"
        (str "phase: " <> str (phase_name phase)))

  unfoldable pub set_deployment_conditions : McuDeployment → McuDeploymentPhase → McuDeployment
  unfolding phase_conditions set_ready_condition
  set_deployment_conditions dep phase =
      set_conditions dep (set_ready_condition (phase_conditions phase dep.status.conditions))
