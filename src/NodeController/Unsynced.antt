-- ===== src/NodeController/Unsynced.antt =====
-- A node whose clock is not set, between the heartbeat server and the reconciler.
use embewi_core.Base.{◌≡◌, refl, ap, ◌∙◌, some, ℕ, ◌+◌, ◌≤◌, String, true, false, ltb, arith}
use embewi_core.Api.Meta.{Condition, condition_false}
use embewi_core.Api.Node.{McuNode}
use embewi_core.Heartbeat.Payload.{HeartbeatPayload}
use embewi_core.Heartbeat.Status.{is_valid_state, is_ready, with_heartbeat}
use embewi_core.Heartbeat.Reports.{status_of_ready, with_heartbeat-IsReport}
use embewi_core.NodeController.Readiness.{
  heartbeat_timeout, is_expired_at, want_ready, conditions_after, with_readiness,
}
use embewi_core.World.Env.{Env}

module _ ⦃env : Env⦄ where
  -- A heartbeat that reports a running, validated image with the reason clock_unsynced makes the
  -- heartbeat server write Ready=false; a reconciliation of that node at most 10 seconds later writes
  -- Ready=true, while the Ready condition in the status that it writes still has the status False.
  pub with_readiness-unsynced :
      (hb : HeartbeatPayload) (ip : String) (seen now : ℕ) (node : McuNode)
      → hb.state ≡ "running"
      → hb.ota_validated ≡ true
      → hb.reason ≡ "clock_unsynced"
      → now ≤ seen + heartbeat_timeout
      → let reported = with_heartbeat hb ip seen node in
        let reconciled = with_readiness (is_expired_at seen now) reported in
        ((reported.status.ready ≡ false) × (reconciled.status.ready ≡ true))
        × ((c : Condition) × ((env.conditions.find_status_condition reconciled.status.conditions
                  "Ready"
                ≡ some c)
              × (c.status ≡ condition_false)))
  unfolding with_heartbeat is_ready with_readiness want_ready conditions_after is_expired_at
      is_valid_state
  with_readiness-unsynced hb ip seen now node running validated unsynced fresh =
      let on_time : ltb (seen + heartbeat_timeout) now ≡ false = ground arith in
      let not_ready : is_ready hb ≡ false = rw (running, validated, unsynced) refl in
      let report = with_heartbeat-IsReport hb (ap is_valid_state running) ip seen node in
      let (c, (found, status)) = report.ready_is in
      (
        (not_ready, rw (on_time, running, validated) refl),
        (c, (rw (on_time) found, status ∙ ap status_of_ready not_ready)),
      )
