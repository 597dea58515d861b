-- ===== src/Deployment/Uniform.antt =====
-- A policy on the statuses written that holds in every phase: it is enough that the ways to write
-- a status meet it.
use embewi_core.Base.{◌≡◌, String, Bool}
use embewi_core.Api.Deployment.{
  McuDeployment, McuDeploymentPhase, unset, binding, pulling, preparing, writing, activating,
  confirming, deployed, failed, other,
}
use embewi_core.Agent.Protocol.{Payload}
use embewi_core.Deployment.Deployed.{with_availability}
use embewi_core.Deployment.Calls.{AllowsPhase, AllowsFail}
use embewi_core.Deployment.Fits.{AllowsPull}
use embewi_core.Deployment.Watch.{Allows}
use embewi_core.World.Env.{Env}

abbrev pub Anything : Payload → Type 0
Anything p = Unit

module _ ⦃env : Env⦄ (Q : McuDeployment → McuDeployment → Type 0) where
  pub record Uniform : Type 0 where
    pub to_phase : (phase : McuDeploymentPhase) → AllowsPhase Q Anything phase
    pub to_failed : AllowsFail Q Anything
    pub pull : AllowsPull Q Anything
    pub availability :
        (dep : McuDeployment) (expired : Bool) (state : String)
        → dep.status.phase ≡ deployed
        → Q dep (with_availability dep expired state)

  pub Uniform-Allows : Uniform → (phase : McuDeploymentPhase) → Allows Q Anything phase
  Uniform-Allows u unset = (u.to_phase pulling, u.to_failed)
  Uniform-Allows u binding = (u.to_phase pulling, u.to_failed)
  Uniform-Allows u pulling = u.pull
  Uniform-Allows u preparing = record {
    to_confirming = u.to_phase confirming;
    to_activating = u.to_phase activating;
    to_writing = u.to_phase writing;
    to_failed = u.to_failed;
    config = (tt, λ m h. tt);
    prepare = λ r. tt;
  }
  Uniform-Allows u writing = (u.to_phase activating, λ x. tt)
  Uniform-Allows u activating = record {
    to_confirming = u.to_phase confirming;
    to_failed = u.to_failed;
    get = tt;
    activate = λ i. tt;
  }
  Uniform-Allows u confirming = (u.to_phase deployed, u.to_failed)
  Uniform-Allows u deployed = record {
    availability = u.availability;
    to_failed = u.to_failed;
    config = (tt, λ m h. tt);
    reboot = tt;
    port = λ n h. tt;
  }
  Uniform-Allows u failed = tt
  Uniform-Allows u (other s) = tt
