-- ===== src/Deployment/Confirmed.antt =====
-- When phaseConfirming ends a deployment.
use embewi_core.Base.{
  ◌≡◌, ◌↔◌, refl, ok, lookup, true, false, ◌⊎◌, inl, inr, eq_iff, and_left, and_right,
}
use embewi_core.Api.Node.{McuNode}
use embewi_core.Api.Deployment.{McuDeployment, deployed, failed}
use embewi_core.Agent.Protocol.{Client}
use embewi_core.Deployment.Phase.{annotation_confirming_since, failed_with, in_phase}
use embewi_core.Deployment.Confirm.{is_confirmed_by, is_rolled_back, confirm_with}
use embewi_core.Deployment.Calls.{Fits, set_phase-Fits, fail-Fits}
use embewi_core.Deployment.Watch.{check_timeout-Fits}
use embewi_core.Deployment.Uniform.{Anything}
use embewi_core.World.Env.{Env}
use embewi_core.World.Emits.{Emits-if}

-- the node's status confirms the deployment
abbrev pub Confirms : McuNode → McuDeployment → Type 0
Confirms node dep =
    (node.status.state ≡ "running")
    × ((node.status.ota_validated ≡ true) × (node.status.deployment_id ≡ dep.status.deployment_id))

-- a status written in Confirming: Deployed where the node confirms, else Failed
abbrev pub Verdict : McuNode → McuDeployment → McuDeployment → McuDeployment → Type 0
Verdict node dep old new =
    ((new.status.phase ≡ deployed) × Confirms node dep)
    ⊎ ((new.status.phase ≡ failed) × ¬ Confirms node dep)

pub is_confirmed_by-Confirms :
    (node : McuNode) (dep : McuDeployment) → (is_confirmed_by node dep ≡ true) ↔ Confirms node dep
is_confirmed_by-Confirms node dep = (
  λ h.
      let rest = and_right _ _ h in
      (
        (eq_iff node.status.state "running").0 (and_left _ _ h),
        (
          and_left _ _ rest,
          (eq_iff node.status.deployment_id dep.status.deployment_id).0 (and_right _ _ rest),
        ),
      ),
  λ (running, (validated, same)).
      rw
        (
          (eq_iff node.status.state "running").1 running,
          validated,
          (eq_iff node.status.deployment_id dep.status.deployment_id).1 same,
        )
        refl,
)

not-Confirms :
    (node : McuNode) (dep : McuDeployment) → is_confirmed_by node dep ≡ false → ¬ Confirms node dep
not-Confirms node dep e c = let f = (is_confirmed_by-Confirms node dep).1 c in absurd (cc)

module _ ⦃env : Env⦄ where
  -- When a deployment in Confirming has the client of its node, a phase written is Deployed, and then
  -- the node's status has the state running, a validated image and this deployment's id, or it is
  -- Failed, and then one of the three is missing.
  pub confirm_with-Verdict :
      (dep : McuDeployment) (node : McuNode) (cli : Client)
      → Fits (Verdict node dep) Anything (confirm_with dep (ok (node, cli)))
  unfolding confirm_with in_phase failed_with
  confirm_with-Verdict dep node cli =
      Emits-if (is_confirmed_by node dep) _ _
        (λ e.
          let yes = (is_confirmed_by-Confirms node dep).0 e in
          set_phase-Fits (Verdict node dep) Anything deployed (λ d b m. inl (refl, yes)) dep _ _)
        (λ e.
          Emits-if (is_rolled_back node.status.state) _ _
            (λ _. fail-Fits (Verdict node dep) Anything (λ d r m. inr (refl, no e)) dep _ _)
            (λ _.
              check_timeout-Fits (Verdict node dep) Anything (λ d r m. inr (refl, no e)) dep
                (lookup annotation_confirming_since dep.annotations)))
    where
      no : is_confirmed_by node dep ≡ false → ¬ Confirms node dep
      no e = not-Confirms node dep e
