-- ===== src/World/Call.antt =====
-- The calls that leave the program.
use embewi_core.Base.{String, Bool, Option, List, Message}
use embewi_core.Base.Int.{ℤ}
use embewi_core.Api.Meta.{ObjectKey, Secret}
use embewi_core.Api.Node.{McuNode}
use embewi_core.Api.Deployment.{McuDeployment}
use embewi_core.Api.Kube.{Service, EndpointSlice}
use embewi_core.Agent.Protocol.{HttpRequest}
use embewi_core.Heartbeat.Payload.{LogPayload}
use embewi_core.Oci.Types.{OciRequest}

pub data EventKind : Type 0 where
  normal warning : EventKind

-- the gauges of internal/metrics
pub data Gauge : Type 0 where
  heap_free_bytes wifi_rssi_dbm uptime_seconds temperature_celsius : Gauge
  task_stack_hwm_bytes last_heartbeat_timestamp config_generation ota_validated : Gauge

-- a float64 that the code sets: an integer, or a number of thousandths
pub data GaugeValue : Type 0 where
  whole thousandths : ℤ → GaugeValue

-- prometheus.Labels of those gauges
pub record Labels : Type 0 where
  pub node_id : String
  pub workload : String
  pub chip : String

-- A patch carries the object that the code read and the one that it made of it.
pub data Call : Type 0 where
  clock_read : Call
  deployment_read node_read config_map_read secret_read : ObjectKey → Call
  nodes_listed : Option String → Call
  deployments_listed : String → Call
  deployment_patched deployment_status_patched : McuDeployment → McuDeployment → Call
  node_status_patched : Bool → McuNode → McuNode → Call
  node_updated : McuNode → Call
  secret_patched : Secret → Secret → Call
  event_recorded : ObjectKey → EventKind → String → Message → Call
  http_sent : HttpRequest → Call
  oci_sent : OciRequest → Call
  gauge_set : Gauge → Labels → GaugeValue → Call
  gauge_deleted : Gauge → Labels → Call
  service_read slice_read : ObjectKey → Call
  service_created : Service → Call
  service_patched : Service → Service → Call
  slice_created : EndpointSlice → Call
  slice_patched : EndpointSlice → EndpointSlice → Call
  log_relayed : Bool → LogPayload → Call

abbrev pub History : Type 0
History = List Call
