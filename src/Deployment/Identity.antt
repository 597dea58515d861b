-- ===== src/Deployment/Identity.antt =====
-- What a reconciliation leaves of a McuDeployment when it writes its status.
use embewi_core.Base.{◌≡◌, refl, false, ◌==◌}
use embewi_core.Api.Deployment.{McuDeployment}
use embewi_core.Deployment.Phase.{in_phase, failed_with}
use embewi_core.Deployment.Conditions.{set_deployment_conditions}
use embewi_core.Deployment.Ota.{pulled}
use embewi_core.Deployment.Deployed.{with_availability}
use embewi_core.Deployment.Device.{McuDeploymentReconciler}
use embewi_core.Deployment.Calls.{Fits}
use embewi_core.Deployment.Watch.{dispatch-Fits}
use embewi_core.Deployment.Uniform.{Anything, Uniform, Uniform-Allows}
use embewi_core.Deployment.Reconcile.{dispatch}
use embewi_core.World.Env.{Env}

-- the object is the same but for its status, and a deployment id that is set stays
pub record KeepsIdentity (old new : McuDeployment) : Type 0 where
  pub same_name : new.name ≡ old.name
  pub same_namespace : new.namespace ≡ old.namespace
  pub same_uid : new.uid ≡ old.uid
  pub same_annotations : new.annotations ≡ old.annotations
  pub same_spec : new.spec ≡ old.spec
  pub same_deployment_id :
      (old.status.deployment_id == "") ≡ false → new.status.deployment_id ≡ old.status.deployment_id

module _ ⦃env : Env⦄ where
  KeepsIdentity-Uniform : Uniform KeepsIdentity
  unfolding in_phase failed_with pulled with_availability set_deployment_conditions
  KeepsIdentity-Uniform = record {
    to_phase = λ p d b m. record {
      same_name = refl;
      same_namespace = refl;
      same_uid = refl;
      same_annotations = refl;
      same_spec = refl;
      same_deployment_id = λ h. refl;
    };
    to_failed = λ d r m. record {
      same_name = refl;
      same_namespace = refl;
      same_uid = refl;
      same_annotations = refl;
      same_spec = refl;
      same_deployment_id = λ h. refl;
    };
    pull = λ d m. record {
      same_name = refl;
      same_namespace = refl;
      same_uid = refl;
      same_annotations = refl;
      same_spec = refl;
      same_deployment_id = λ h. rw (h) refl;
    };
    availability = λ d e s p. record {
      same_name = refl;
      same_namespace = refl;
      same_uid = refl;
      same_annotations = refl;
      same_spec = refl;
      same_deployment_id = λ h. refl;
    };
  }

  -- Every status patch of a reconciliation leaves the object's name, namespace, uid, annotations and
  -- spec as they were, and a deployment id that is not empty: the key that makes a retried prepare
  -- idempotent never changes.
  pub dispatch-KeepsIdentity :
      (r : McuDeploymentReconciler) (dep : McuDeployment)
      → Fits KeepsIdentity Anything (dispatch r dep dep.status.phase)
  dispatch-KeepsIdentity r dep =
      dispatch-Fits KeepsIdentity Anything r dep dep.status.phase
        (Uniform-Allows KeepsIdentity KeepsIdentity-Uniform dep.status.phase) refl
