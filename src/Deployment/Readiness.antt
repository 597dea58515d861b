-- ===== src/Deployment/Readiness.antt =====
-- The conditions that a reconciliation writes: Ready against Progressing and Available, and
-- against the phase.
use embewi_core.Base.{
  sym, ap, ◌∙◌, ◌≡◌, refl, String, Bool, true, false, ◌&&◌, some, Message, ◌==◌, if◌then◌else◌,
  List, inl, inr, Bool-cases, str, ◌<>◌,
}
use embewi_core.Api.Meta.{Condition, condition_true, condition_false}
use embewi_core.Api.Deployment.{
  McuDeployment, McuDeploymentPhase, unset, binding, pulling, preparing, writing, activating,
  confirming, deployed, failed, other,
}
use embewi_core.Oci.Types.{FirmwareMeta}
use embewi_core.Deployment.Conditions.{
  condition, set_ready_condition, ready_condition, set_deployment_conditions, phase_conditions,
  with_condition, find_condition, is_status,
}
use embewi_core.Deployment.Phase.{in_phase, failed_with}
use embewi_core.Deployment.Ota.{pulled}
use embewi_core.Deployment.Deployed.{with_availability}
use embewi_core.Deployment.Device.{McuDeploymentReconciler}
use embewi_core.Deployment.Calls.{Fits}
use embewi_core.Deployment.Watch.{dispatch-Fits}
use embewi_core.Deployment.Uniform.{Anything, Uniform, Uniform-Allows}
use embewi_core.Deployment.Reconcile.{dispatch}
use embewi_core.World.Env.{Env}

module _ ⦃env : Env⦄ where
  -- Ready is True
  abbrev pub claims_ready : List Condition → Bool
  claims_ready cs = is_status condition_true (find_condition cs "Ready")

  -- Progressing is False and Available is True
  abbrev pub is_complete : List Condition → Bool
  is_complete cs =
      is_status condition_false (find_condition cs "Progressing")
      && is_status condition_true (find_condition cs "Available")

  -- Ready is what Progressing and Available say, and only a Deployed deployment is ready
  abbrev pub TellsReadiness : McuDeployment → McuDeployment → Type 0
  TellsReadiness old new =
      (claims_ready new.status.conditions ≡ is_complete new.status.conditions)
      × (claims_ready new.status.conditions ≡ true → new.status.phase ≡ deployed)

  ready_says :
      (cs : List Condition)
      → ((ready_condition cs).type ≡ "Ready")
        × (is_status condition_true (some (ready_condition cs)) ≡ is_complete cs)
  unfolding ready_condition
  ready_says cs = elim (Bool-cases (is_complete cs)) [
    | inl e ↦ rw (e) (refl, refl)
    | inr e ↦ rw (e) (refl, refl)
  ]

  -- what a condition of some type reads as, once Ready is set
  find_after :
      (cs : List Condition) (t : String)
      → find_condition (set_ready_condition cs) t
        ≡ (if "Ready" == t then some (ready_condition cs) else find_condition cs t)
  unfolding set_ready_condition
  find_after cs t =
      env.conditions.find-set cs (ready_condition cs) t
      ∙ ap (λ k. if k == t then some (ready_condition cs) else find_condition cs t)
          (ready_says cs).0

  after_ready :
      (cs : List Condition)
      → (claims_ready (set_ready_condition cs) ≡ is_complete cs)
        × (is_complete (set_ready_condition cs) ≡ is_complete cs)
  after_ready cs = (
    ap (is_status condition_true) (find_after cs "Ready") ∙ (ready_says cs).1,
    rw (find_after cs "Progressing", find_after cs "Available") refl,
  )

  -- any status whose conditions end with setReadyCondition, and are complete only if Deployed
  tells :
      (old new : McuDeployment) (cs : List Condition)
      → new.status.conditions ≡ set_ready_condition cs
      → (is_complete cs ≡ true → new.status.phase ≡ deployed)
      → TellsReadiness old new
  tells old new cs e k =
      let (claims, complete) = after_ready cs in
      rw (e) (claims ∙ sym complete, λ h. k (sym claims ∙ h))

  progressing_is :
      (cs : List Condition) (c : Condition)
      → c.type ≡ "Progressing"
      → is_status condition_false (some c) ≡ false
      → is_complete (with_condition cs c) ≡ false
  progressing_is cs c t h = rw (env.conditions.find-set cs c "Progressing", t, h) refl

  available_is :
      (cs : List Condition) (c : Condition)
      → c.type ≡ "Available"
      → is_status condition_true (some c) ≡ false
      → is_complete (with_condition cs c) ≡ false
  available_is cs c t h =
      elim (Bool-cases
        (is_status condition_false (find_condition (with_condition cs c) "Progressing"))) [
          | inl e ↦ rw (e, env.conditions.find-set cs c "Available", t, h) refl
          | inr e ↦ rw (e) refl
        ]

  false-true : {b : Bool} {A : Type 0} → b ≡ false → b ≡ true → A
  false-true {b = true} e h = absurd (cc)
  false-true {b = false} e h = absurd (cc)

  phase_conditions-is_complete :
      (phase : McuDeploymentPhase) (cs : List Condition)
      → is_complete (phase_conditions phase cs) ≡ true
      → phase ≡ deployed
  unfolding phase_conditions
  phase_conditions-is_complete deployed cs h = refl
  phase_conditions-is_complete confirming cs h = false-true (available_is _ _ refl refl) h
  phase_conditions-is_complete unset cs h = false-true (progressing_is cs _ refl refl) h
  phase_conditions-is_complete binding cs h = false-true (progressing_is cs _ refl refl) h
  phase_conditions-is_complete pulling cs h = false-true (progressing_is cs _ refl refl) h
  phase_conditions-is_complete preparing cs h = false-true (progressing_is cs _ refl refl) h
  phase_conditions-is_complete writing cs h = false-true (progressing_is cs _ refl refl) h
  phase_conditions-is_complete activating cs h = false-true (progressing_is cs _ refl refl) h
  phase_conditions-is_complete failed cs h = false-true (progressing_is cs _ refl refl) h
  phase_conditions-is_complete (other s) cs h = false-true (progressing_is cs _ refl refl) h

  in_phase-TellsReadiness :
      (phase : McuDeploymentPhase) (dep : McuDeployment) (bound_node : String) (msg : Message)
      → TellsReadiness dep (in_phase dep phase bound_node msg)
  unfolding in_phase set_deployment_conditions
  in_phase-TellsReadiness phase dep bound_node msg =
      let cs = dep.status.conditions in
      tells dep (in_phase dep phase bound_node msg) (phase_conditions phase cs) refl
        (phase_conditions-is_complete phase cs)

  pulled-TellsReadiness :
      (dep : McuDeployment) (meta : FirmwareMeta) → TellsReadiness dep (pulled dep meta)
  unfolding pulled set_deployment_conditions
  pulled-TellsReadiness dep meta =
      tells dep (pulled dep meta) (phase_conditions preparing dep.status.conditions) refl
        (λ h. let e = phase_conditions-is_complete preparing dep.status.conditions h in absurd (cc))

  failed_with-TellsReadiness :
      (dep : McuDeployment) (reason : String) (msg : Message)
      → TellsReadiness dep (failed_with dep reason msg)
  unfolding failed_with
  failed_with-TellsReadiness dep reason msg =
      let full : Message = str "[" <> str reason <> str "] " <> msg in
      let progress = condition "Progressing" condition_false "OTAFailed" msg in
      let available = condition "Available" condition_false "DeviceDegraded" full in
      let with_progress = with_condition dep.status.conditions progress in
      tells dep (failed_with dep reason msg) (with_condition with_progress available) refl
        (λ h. false-true (available_is with_progress available refl refl) h)

  with_availability-TellsReadiness :
      (dep : McuDeployment) (expired : Bool) (state : String)
      → dep.status.phase ≡ deployed
      → TellsReadiness dep (with_availability dep expired state)
  unfolding with_availability
  with_availability-TellsReadiness dep expired state h =
      tells dep (with_availability dep expired state) _ refl (λ _. h)

  TellsReadiness-Uniform : Uniform TellsReadiness
  TellsReadiness-Uniform = record {
    to_phase = in_phase-TellsReadiness;
    to_failed = failed_with-TellsReadiness;
    pull = pulled-TellsReadiness;
    availability = with_availability-TellsReadiness;
  }

  -- In every status that a reconciliation writes, the Ready condition is True exactly where
  -- Progressing is False and Available is True, and Ready is True only in phase Deployed.
  pub dispatch-TellsReadiness :
      (r : McuDeploymentReconciler) (dep : McuDeployment)
      → Fits TellsReadiness Anything (dispatch r dep dep.status.phase)
  dispatch-TellsReadiness r dep =
      dispatch-Fits TellsReadiness Anything r dep dep.status.phase
        (Uniform-Allows TellsReadiness TellsReadiness-Uniform dep.status.phase) refl
