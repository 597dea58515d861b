-- ===== src/Metrics.antt =====
-- internal/metrics/metrics.go: the Prometheus gauges of the nodes, and the labels under which each
-- node was last shown. A locked section of the source is one action here.
pub mod Series
pub mod Calls
pub mod Board
pub mod Heard
pub mod Refines
pub mod Race
use embewi_core.Base.{
  String, Bool, true, false, not, ◌&&◌, ◌||◌, Option, none, some, List, Assoc, lookup, insert,
  erase, ◌==◌, if◌then◌else◌,
}
use embewi_core.Base.Int.{ℤ, pos, negsuc, eqz}
use embewi_core.World.Call.{
  Labels, GaugeValue, whole, thousandths, heap_free_bytes, wifi_rssi_dbm, uptime_seconds,
  temperature_celsius, task_stack_hwm_bytes, last_heartbeat_timestamp, config_generation,
  ota_validated,
}
use embewi_core.World.Action.{
  M, pure, ◌>>=◌, ◌>>◌, set_gauge, delete_gauge, read_prev_labels, write_prev_labels,
}

pub record HeartbeatData : Type 0 where
  pub node_id : String
  pub workload : String
  pub chip : String
  pub heap_free : ℤ
  pub rssi : ℤ
  pub uptime_ms : ℤ
  pub temp_celsius : ℤ
  pub task_hwm_min : ℤ
  pub config_generation : ℤ
  pub ts : ℤ
  pub ota_validated : Bool

-- the value -127.0 of a temperature sensor that is not there, in thousandths
abbrev pub no_sensor : ℤ
no_sensor = negsuc 126999

unfoldable pub delete_labels : Labels → M (Unit {0})
delete_labels l = do
  delete_gauge heap_free_bytes l
  delete_gauge wifi_rssi_dbm l
  delete_gauge uptime_seconds l
  delete_gauge temperature_celsius l
  delete_gauge task_stack_hwm_bytes l
  delete_gauge last_heartbeat_timestamp l
  delete_gauge config_generation l
  delete_gauge ota_validated l

abbrev pub forget : String → Assoc Labels → Option Labels → M (Unit {0})
forget node_id prev none = pure tt
forget node_id prev (some old) = delete_labels old >> write_prev_labels (erase node_id prev)

unfoldable pub remove_node : String → M (Unit {0})
unfolding delete_labels lookup erase
remove_node node_id = do prev ← read_prev_labels; forget node_id prev (lookup node_id prev)

abbrev pub labels_of : HeartbeatData → Labels
labels_of d = record { node_id = d.node_id; workload = d.workload; chip = d.chip }

-- the old series go where the workload or the chip is another
abbrev pub drop_old : Labels → Option Labels → M (Unit {0})
drop_old l none = pure tt
drop_old l (some old) =
    if not (old.workload == l.workload) || not (old.chip == l.chip)
    then delete_labels old
    else pure tt

-- the locked section of UpdateFromHeartbeat
unfoldable pub track : HeartbeatData → M (Unit {0})
unfolding delete_labels lookup insert
track d = do
  prev ← read_prev_labels
  drop_old (labels_of d) (lookup d.node_id prev)
  write_prev_labels (insert d.node_id (labels_of d) prev)

abbrev pub one_if : Bool → GaugeValue
one_if true = whole (pos 1)
one_if false = whole (pos 0)

-- what UpdateFromHeartbeat does after its locked section
unfoldable pub set_gauges : HeartbeatData → M (Unit {0})
set_gauges d = do
  set_gauge heap_free_bytes (labels_of d) (whole d.heap_free)
  set_gauge wifi_rssi_dbm (labels_of d) (whole d.rssi)
  set_gauge uptime_seconds (labels_of d) (thousandths d.uptime_ms)
  if eqz d.temp_celsius no_sensor
      then pure tt
      else set_gauge temperature_celsius (labels_of d) (thousandths d.temp_celsius)
  set_gauge task_stack_hwm_bytes (labels_of d) (whole d.task_hwm_min)
  if eqz d.ts (pos 0)
      then pure tt
      else set_gauge last_heartbeat_timestamp (labels_of d) (whole d.ts)
  set_gauge config_generation (labels_of d) (whole d.config_generation)
  set_gauge ota_validated (labels_of d) (one_if d.ota_validated)

unfoldable pub update_from_heartbeat : HeartbeatData → M (Unit {0})
unfolding track set_gauges
update_from_heartbeat d = track d >> set_gauges d
