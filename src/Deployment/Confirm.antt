-- ===== src/Deployment/Confirm.antt =====
-- internal/controller/mcudeployment_controller.go, phaseConfirming.
use embewi_core.Base.{
  quoted, ℕ, ◌-◌, ◌*◌, String, Bool, false, ◌&&◌, ◌||◌, Option, none, some, Result, ok, err, str,
  ◌<>◌, ◌==◌, ltb, if◌then◌else◌, lookup,
}
use embewi_core.Api.Node.{McuNode}
use embewi_core.Api.Deployment.{McuDeployment, deployed}
use embewi_core.Agent.Protocol.{Client}
use embewi_core.Deployment.Phase.{
  Outcome, requeue_after, annotation_confirming_since, set_phase, fail,
}
use embewi_core.Deployment.Device.{McuDeploymentReconciler, node_client}
use embewi_core.World.Env.{Env}
use embewi_core.World.Action.{M, pure, ◌>>=◌, time_now}

-- time.Second, in nanoseconds
abbrev pub second : ℕ
second = 1000000000

abbrev pub confirm_timeout : ℕ
confirm_timeout = 120 * second

abbrev pub is_confirmed_by : McuNode → McuDeployment → Bool
is_confirmed_by node dep =
    node.status.state == "running"
    && (node.status.ota_validated && node.status.deployment_id == dep.status.deployment_id)

abbrev pub is_rolled_back : String → Bool
is_rolled_back state = state == "failed" || (state == "rollback" || state == "degraded")

-- time.Since(since) > ConfirmTimeout; a `since` in the future has not timed out
abbrev pub timed_out : ℕ → Option ℕ → Bool
timed_out now none = false
timed_out now (some since) = ltb confirm_timeout (now - since)

module _ ⦃env : Env⦄ where
  unfoldable pub fail_if_late : McuDeployment → String → ℕ → M Outcome
  fail_if_late dep since now =
      if timed_out now (env.parse_rfc3339 since)
      then fail dep "ConfirmTimeout" (str "aucune confirmation dans les 2m0s après activate")
      else pure (requeue_after 10)

  unfoldable pub check_timeout : McuDeployment → Option String → M Outcome
  unfolding fail_if_late
  check_timeout dep none = pure (requeue_after 10)
  check_timeout dep (some since) = do now ← time_now; fail_if_late dep since now

  unfoldable pub confirm_with : McuDeployment → Result (McuNode × Client) → M Outcome
  unfolding check_timeout lookup
  confirm_with dep (err e) = pure (requeue_after 10)
  confirm_with dep (ok (node, cli)) =
      if is_confirmed_by node dep
      then set_phase dep deployed node.name (str "déploiement confirmé par heartbeat")
      else if is_rolled_back node.status.state
      then fail dep "DeviceRollback"
          (str "device en état " <> quoted node.status.state <> str " après activation")
      else check_timeout dep (lookup annotation_confirming_since dep.annotations)

  unfoldable pub phase_confirming : McuDeploymentReconciler → McuDeployment → M Outcome
  unfolding confirm_with
  phase_confirming r dep = do c ← node_client r dep; confirm_with dep c
