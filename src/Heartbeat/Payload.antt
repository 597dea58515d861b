-- ===== src/Heartbeat/Payload.antt =====
-- internal/heartbeat/server.go: the bodies that devices send. A `float64` temperature stands in
-- thousandths of a degree, as in the status of a node.
use embewi_core.Base.{String, Bool}
use embewi_core.Base.Int.{ℤ}

pub record HeartbeatPayload : Type 0 where
  pub node_id : String
  pub ip : String
  pub ts : ℤ
  pub state : String
  pub deployment_id : String
  pub firmware_digest : String
  pub ota_validated : Bool
  pub uptime_ms : ℤ
  pub heap_free : ℤ
  pub rssi : ℤ
  pub config_generation : ℤ
  pub temp_celsius : ℤ
  pub task_hwm_min : ℤ
  pub reason : String

pub record LogPayload : Type 0 where
  pub ts : ℤ
  pub node : String
  pub workload : String
  pub level : String
  pub msg : String
