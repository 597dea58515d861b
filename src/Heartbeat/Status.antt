-- ===== src/Heartbeat/Status.antt =====
-- internal/heartbeat/server.go: what handleHeartbeat makes of the status of a node.
use embewi_core.Base.{
  ℕ, String, Bool, ◌&&◌, ◌||◌, not, some, Message, str, ◌<>◌, ◌==◌, if◌then◌else◌,
}
use embewi_core.Base.Int.{eqz}
use embewi_core.Api.Meta.{Condition, ConditionStatus, condition_true, condition_false}
use embewi_core.Api.Node.{McuNode}
use embewi_core.Metrics.{HeartbeatData, no_sensor}
use embewi_core.Heartbeat.Payload.{HeartbeatPayload}
use embewi_core.World.Env.{Env}

abbrev pub reason_clock_unsynced : String
reason_clock_unsynced = "clock_unsynced"

-- validNodeStates
unfoldable pub is_valid_state : String → Bool
is_valid_state s =
    s == "booting"
    || (s == "pending_verify"
        || (s == "running"
            || (s == "degraded" || (s == "rollback" || (s == "failed" || s == "offline")))))

unfoldable pub is_ready : HeartbeatPayload → Bool
is_ready hb =
    hb.state == "running" && (hb.ota_validated && not (hb.reason == reason_clock_unsynced))

abbrev pub provisioned : Condition
provisioned = record {
  type = "Provisioned";
  status = condition_true;
  reason = "ProvisioningComplete";
  message = str "heartbeat reçu, node_id et token établis";
}

abbrev pub ready_condition : ConditionStatus → String → Message → Condition
ready_condition status reason message = record {
  type = "Ready";
  status = status;
  reason = reason;
  message = message;
}

unfoldable pub heartbeat_condition : HeartbeatPayload → Condition
unfolding is_ready
heartbeat_condition hb =
    if is_ready hb
    then ready_condition condition_true "HeartbeatOK" (str "heartbeat reçu, state=" <> str hb.state)
    else if hb.reason == reason_clock_unsynced
    then ready_condition condition_false "ClockUnsynced" (
        str
          "heartbeat reçu mais horloge device non synchronisée (NTP) — signal diagnostique, pas de confirmation Ready")
    else ready_condition condition_false "DeviceNotReady"
        (str "heartbeat reçu, state=" <> str hb.state <> str " (non prêt)")

module _ ⦃env : Env⦄ where
  unfoldable pub with_heartbeat : HeartbeatPayload → String → ℕ → McuNode → McuNode
  unfolding is_ready heartbeat_condition
  with_heartbeat hb source_ip now node = record node {
    status = record node.status {
      ip = source_ip;
      state = hb.state;
      firmware_digest = hb.firmware_digest;
      deployment_id = hb.deployment_id;
      ota_validated = hb.ota_validated;
      heap_free = hb.heap_free;
      rssi = hb.rssi;
      uptime_ms = hb.uptime_ms;
      config_generation = hb.config_generation;
      task_hwm_min = hb.task_hwm_min;
      ready = is_ready hb;
      last_heartbeat = some now;
      temp_celsius =
          if eqz hb.temp_celsius no_sensor then node.status.temp_celsius else hb.temp_celsius;
      conditions =
          env.conditions.set_status_condition
            (env.conditions.set_status_condition node.status.conditions provisioned)
            (heartbeat_condition hb);
    };
  }

-- metrics.HeartbeatData of a heartbeat and the chip of the node
abbrev pub metrics_of : HeartbeatPayload → String → HeartbeatData
metrics_of hb chip = record {
  node_id = hb.node_id;
  workload = hb.deployment_id;
  chip = chip;
  heap_free = hb.heap_free;
  rssi = hb.rssi;
  uptime_ms = hb.uptime_ms;
  temp_celsius = hb.temp_celsius;
  task_hwm_min = hb.task_hwm_min;
  config_generation = hb.config_generation;
  ts = hb.ts;
  ota_validated = hb.ota_validated;
}
