-- ===== src/NodeController/Readiness.antt =====
-- internal/controller/mcunode_controller.go, Reconcile: the part that decides readiness from the age of
-- the last heartbeat.
use embewi_core.Base.{
  ℕ, ◌+◌, String, Bool, true, false, ◌&&◌, not, Option, none, some, List, str, ltb, ◌==◌,
  if◌then◌else◌,
}
use embewi_core.Api.Meta.{Condition, ConditionStatus, condition_false, condition_unknown}
use embewi_core.Api.Node.{McuNode}
use embewi_core.World.Env.{Env}
use embewi_core.World.Action.{M, pure, ◌>>=◌, time_now}

-- HeartbeatTimeout, in nanoseconds
abbrev pub heartbeat_timeout : ℕ
heartbeat_timeout = 10000000000

-- time.Since(last) > HeartbeatTimeout
unfoldable pub is_expired_at : ℕ → ℕ → Bool
is_expired_at last now = ltb (last + heartbeat_timeout) now

unfoldable pub is_set : Option ℕ → Bool
is_set none = false
is_set (some t) = true

unfoldable pub want_ready : Bool → McuNode → Bool
want_ready expired node =
    not expired && (node.status.state == "running" && node.status.ota_validated)

unfoldable pub want_state : Bool → McuNode → String
unfolding is_set
want_state expired node =
    if expired && (not (node.status.state == "offline") && is_set node.status.last_heartbeat)
    then "offline"
    else node.status.state

abbrev pub node_condition : String → ConditionStatus → String → String → Condition
node_condition type status reason message = record {
  type = type;
  status = status;
  reason = reason;
  message = str message;
}

abbrev pub not_provisioned : Condition
not_provisioned =
    node_condition "Provisioned" condition_false "ProvisioningPending"
      "aucun heartbeat reçu, device non encore connecté"

abbrev pub never_ready : Condition
never_ready = node_condition "Ready" condition_unknown "NotProvisioned" "device jamais enrôlé"

abbrev pub timed_out : Condition
timed_out =
    node_condition "Ready" condition_false "HeartbeatTimeout" "aucun heartbeat depuis plus de 10s"

module _ ⦃env : Env⦄ where
  -- heartbeatExpired; the clock is read only where there was a heartbeat
  unfoldable pub heartbeat_expired : Option ℕ → M Bool
  unfolding is_expired_at
  heartbeat_expired none = pure true
  heartbeat_expired (some last) = do now ← time_now; pure (is_expired_at last now)

  unfoldable pub conditions_after : Bool → Option ℕ → List Condition → List Condition
  conditions_after expired none cs =
      env.conditions.set_status_condition (env.conditions.set_status_condition cs not_provisioned)
        never_ready
  conditions_after true (some last) cs = env.conditions.set_status_condition cs timed_out
  conditions_after false (some last) cs = cs

  unfoldable pub with_readiness : Bool → McuNode → McuNode
  unfolding want_ready want_state conditions_after
  with_readiness expired node = record node {
    status = record node.status {
      ready = want_ready expired node;
      state = want_state expired node;
      conditions = conditions_after expired node.status.last_heartbeat node.status.conditions;
    };
  }
