-- ===== src/Deployment/Lifecycle.antt =====
-- What a reconciliation writes in a McuDeployment, whatever the API server, the device and the
-- registry answer.
use mathlib.Core.Path.{subst}
use embewi_core.Base.{sym, refl}
use embewi_core.Api.Deployment.{
  McuDeployment, McuDeploymentPhase, unset, binding, pulling, preparing, writing, activating,
  confirming, deployed, failed, other,
}
use embewi_core.Deployment.Phase.{in_phase, failed_with}
use embewi_core.Deployment.Ota.{pulled}
use embewi_core.Deployment.Deployed.{with_availability}
use embewi_core.Deployment.Device.{McuDeploymentReconciler}
use embewi_core.Deployment.Calls.{Fits}
use embewi_core.Deployment.Watch.{Allows, dispatch-Fits}
use embewi_core.Deployment.Uniform.{Anything}
use embewi_core.Deployment.Reconcile.{dispatch}
use embewi_core.World.Env.{Env}

infix 40 ◌⟶◌
-- the state machine of the code. The comment of McuDeploymentReconciler draws another edge out of the
-- empty phase, to Binding, and not the short cuts of a resumed preparation.
pub data ◌⟶◌ : McuDeploymentPhase → McuDeploymentPhase → Type 0 where
  bind_new : unset ⟶ pulling
  bind_new_fails : unset ⟶ failed
  bind : binding ⟶ pulling
  bind_fails : binding ⟶ failed
  pull : pulling ⟶ preparing
  prepare : preparing ⟶ writing
  resume_written : preparing ⟶ activating
  resume_activating : preparing ⟶ confirming
  prepare_fails : preparing ⟶ failed
  write : writing ⟶ activating
  activate : activating ⟶ confirming
  activate_fails : activating ⟶ failed
  confirm : confirming ⟶ deployed
  confirm_fails : confirming ⟶ failed
  watch : deployed ⟶ deployed
  watch_fails : deployed ⟶ failed

-- the phase that a patch writes follows the phase that was read
abbrev pub Follows : McuDeploymentPhase → McuDeployment → McuDeployment → Type 0
Follows phase old new = phase ⟶ new.status.phase

module _ ⦃env : Env⦄ where
  Follows-Allows : (phase : McuDeploymentPhase) → Allows (Follows phase) Anything phase
  unfolding in_phase failed_with pulled with_availability
  Follows-Allows unset = (λ d b m. bind_new, λ d r m. bind_new_fails)
  Follows-Allows binding = (λ d b m. bind, λ d r m. bind_fails)
  Follows-Allows pulling = λ d m. pull
  Follows-Allows preparing = record {
    to_confirming = λ d b m. resume_activating;
    to_activating = λ d b m. resume_written;
    to_writing = λ d b m. prepare;
    to_failed = λ d r m. prepare_fails;
    config = (tt, λ m h. tt);
    prepare = λ r. tt;
  }
  Follows-Allows writing = (λ d b m. write, λ x. tt)
  Follows-Allows activating = record {
    to_confirming = λ d b m. activate;
    to_failed = λ d r m. activate_fails;
    get = tt;
    activate = λ i. tt;
  }
  Follows-Allows confirming = (λ d b m. confirm, λ d r m. confirm_fails)
  Follows-Allows deployed = record {
    availability = λ d e s h. subst (λ p. deployed ⟶ p) (sym h) watch;
    to_failed = λ d r m. watch_fails;
    config = (tt, λ m h. tt);
    reboot = tt;
    port = λ n h. tt;
  }
  Follows-Allows failed = tt
  Follows-Allows (other s) = tt

  pub dispatch-Follows :
      (r : McuDeploymentReconciler) (dep : McuDeployment)
      → Fits (Follows dep.status.phase) Anything (dispatch r dep dep.status.phase)
  dispatch-Follows r dep =
      dispatch-Fits (Follows dep.status.phase) Anything r dep dep.status.phase
        (Follows-Allows dep.status.phase) refl
