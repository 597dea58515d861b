-- ===== src/Deployment/Phase.antt =====
-- internal/controller/mcudeployment_controller.go, setPhase and fail: the two ways in which a
-- reconciliation writes a phase.
use embewi_core.Base.{
  ℕ, String, Bool, true, false, none, some, Result, ok, err, Error, Message, str, ◌<>◌, lookup,
  insert,
}
use embewi_core.Api.Meta.{condition_false}
use embewi_core.Api.Deployment.{McuDeployment, McuDeploymentPhase, confirming, failed}
use embewi_core.Deployment.Conditions.{
  condition, with_condition, set_conditions, set_ready_condition, set_deployment_conditions,
}
use embewi_core.World.Env.{Env}
use embewi_core.World.Action.{M, pure, ◌>>=◌, time_now, patch_deployment, patch_deployment_status}

-- (ctrl.Result, error): an empty result, Requeue, RequeueAfter in seconds, or the error
pub data Outcome : Type 0 where
  done requeue : Outcome
  requeue_after : ℕ → Outcome
  error : Error → Outcome

abbrev pub annotation_confirming_since : String
annotation_confirming_since = "embewi.io/confirming-since"

abbrev pub is_confirming : McuDeploymentPhase → Bool
is_confirming confirming = true
is_confirming _ = false

-- the outcome of a patch that ends a reconciliation
abbrev pub after_patch : {A : Type 0} → Outcome → Result A → Outcome
after_patch o (ok _) = o
after_patch o (err e) = error e

module _ ⦃env : Env⦄ where
  -- dep.Annotations[annotationConfirmingSince] is set, once, when Confirming is entered
  unfoldable pub stamp_confirming : McuDeployment → M (Result McuDeployment)
  unfolding lookup insert
  stamp_confirming dep = elim (lookup annotation_confirming_since dep.annotations) [
    | some since ↦ pure (ok dep)
    | none ↦ do
      t ← time_now
      patch_deployment dep (record dep {
        annotations = insert annotation_confirming_since (env.format_rfc3339 t) dep.annotations;
      })
  ]

  unfoldable pub stamp_if : Bool → McuDeployment → M (Result McuDeployment)
  unfolding stamp_confirming
  stamp_if true dep = stamp_confirming dep
  stamp_if false dep = pure (ok dep)

  unfoldable pub in_phase : McuDeployment → McuDeploymentPhase → String → Message → McuDeployment
  unfolding set_deployment_conditions
  in_phase dep phase bound_node msg =
      set_deployment_conditions
        (record dep {
          status = record dep.status { phase = phase; bound_node = bound_node; message = msg };
        })
        phase

  unfoldable pub write_phase :
      McuDeploymentPhase → String → Message → Result McuDeployment → M Outcome
  unfolding in_phase
  write_phase phase bound_node msg (err e) = pure (error e)
  write_phase phase bound_node msg (ok dep) = do
    r ← patch_deployment_status dep (in_phase dep phase bound_node msg)
    pure (after_patch requeue r)

  unfoldable pub set_phase : McuDeployment → McuDeploymentPhase → String → Message → M Outcome
  unfolding stamp_if write_phase
  set_phase dep phase bound_node msg = do
    r ← stamp_if (is_confirming phase) dep
    write_phase phase bound_node msg r

  unfoldable pub failed_with : McuDeployment → String → Message → McuDeployment
  unfolding set_ready_condition
  failed_with dep reason msg =
      let full : Message = str "[" <> str reason <> str "] " <> msg in
      let failed_dep = record dep {
        status = record dep.status { phase = failed; message = full };
      } in
      set_conditions failed_dep (
        set_ready_condition (
          with_condition
            (with_condition dep.status.conditions
              (condition "Progressing" condition_false "OTAFailed" msg))
            (condition "Available" condition_false "DeviceDegraded" full)))

  unfoldable pub fail : McuDeployment → String → Message → M Outcome
  unfolding failed_with
  fail dep reason msg = do
    r ← patch_deployment_status dep (failed_with dep reason msg)
    pure (after_patch done r)
