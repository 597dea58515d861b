-- ===== src/World/Env.antt =====
-- The outside, and the parts of Go's standard library that the code calls on as black boxes:
-- JSON decoding, SHA-256, Ed25519, base64 and RFC 3339 times.
use embewi_core.Base.{ℕ, String, Bool, Option, List, Result}
use embewi_core.Base.Int.{ℤ}
use embewi_core.Api.Meta.{ObjectKey, Secret, Bytes, ConditionApi}
use embewi_core.Api.Node.{McuNode}
use embewi_core.Api.Deployment.{McuDeployment, McuConfigMap}
use embewi_core.Agent.Protocol.{
  HttpRequest, HttpResponse, InfoResponse, PrepareResponse, ConfigResponse, HealthResponse,
  WriteResult,
}
use embewi_core.Api.Kube.{Service, EndpointSlice}
use embewi_core.Heartbeat.Payload.{HeartbeatPayload, LogPayload}
use embewi_core.Oci.Types.{OciRequest, OciResponse, Manifest, Source}
use embewi_core.World.Call.{History}

pub record Env : Type 0 where
  pub conditions : ConditionApi
  -- the clock, in nanoseconds since the Unix epoch
  pub now : History → ℕ
  -- the API server
  pub get_deployment : History → ObjectKey → Result McuDeployment
  pub get_node : History → ObjectKey → Result McuNode
  pub get_config_map : History → ObjectKey → Result McuConfigMap
  pub get_secret : History → ObjectKey → Result Secret
  pub list_nodes : History → Option String → Result (List McuNode)
  pub list_deployments : History → String → Result (List McuDeployment)
  pub patch_deployment : History → McuDeployment → McuDeployment → Result McuDeployment
  pub patch_deployment_status : History → McuDeployment → McuDeployment → Result McuDeployment
  pub patch_node_status : History → Bool → McuNode → McuNode → Result McuNode
  pub update_node : History → McuNode → Result McuNode
  pub patch_secret : History → Secret → Secret → Result Secret
  pub get_service : History → ObjectKey → Result Service
  pub create_service : History → Service → Result (Unit {0})
  pub patch_service : History → Service → Service → Result (Unit {0})
  pub get_slice : History → ObjectKey → Result EndpointSlice
  pub create_slice : History → EndpointSlice → Result (Unit {0})
  pub patch_slice : History → EndpointSlice → EndpointSlice → Result (Unit {0})
  -- controllerutil: the owner references with that of the node, and finalizers
  pub set_controller_reference : McuNode → List String → Result (List String)
  pub contains_finalizer : List String → String → Bool
  pub add_finalizer : List String → String → List String × Bool
  pub remove_finalizer : List String → String → List String
  -- devices and registries
  pub http_do : History → HttpRequest → Result HttpResponse
  pub oci_do : History → OciRequest → Result OciResponse
  -- encoding/json
  pub decode_info : Option Bytes → Result InfoResponse
  pub decode_health : Option Bytes → Result HealthResponse
  pub decode_prepare : Option Bytes → Result PrepareResponse
  pub decode_config : Option Bytes → Result ConfigResponse
  pub decode_write : Bytes → Result WriteResult
  pub decode_written : Bytes → ℤ
  pub decode_heartbeat : Bytes → Result HeartbeatPayload
  pub decode_log : Bytes → Result LogPayload
  pub decode_manifest : Source → Result Manifest
  -- crypto, encoding and time
  pub sha256_hex : Bytes → String
  pub ed25519_verify : Bytes → String → Bytes → Bool
  pub base64_decode : String → Option Bytes
  pub format_rfc3339 : ℕ → String
  pub parse_rfc3339 : String → Option ℕ
  -- net.SplitHostPort: the host, where the text is an address with a port
  pub host_of_address : String → Option String
