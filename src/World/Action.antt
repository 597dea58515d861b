-- ===== src/World/Action.antt =====
-- Actions: functions that make calls and return a value, in the order of the source's statements.
use embewi_core.Base.{ℕ, String, Bool, Option, List, ◌∷◌, Result, Message, Assoc}
use embewi_core.Api.Meta.{ObjectKey, Secret}
use embewi_core.Api.Node.{McuNode}
use embewi_core.Api.Deployment.{McuDeployment, McuConfigMap}
use embewi_core.Api.Kube.{Service, EndpointSlice}
use embewi_core.Heartbeat.Payload.{LogPayload}
use embewi_core.Agent.Protocol.{HttpRequest, HttpResponse}
use embewi_core.Oci.Types.{OciRequest, OciResponse}
use embewi_core.World.Call.{
  Call, History, EventKind, Labels, Gauge, GaugeValue, gauge_set, gauge_deleted, service_read,
  slice_read, service_created, service_patched, slice_created, slice_patched, log_relayed,
  clock_read, deployment_read, node_read, config_map_read, secret_read, nodes_listed,
  deployments_listed, deployment_patched, deployment_status_patched, node_status_patched,
  node_updated, secret_patched, event_recorded, http_sent, oci_sent,
}
use embewi_core.World.Env.{Env}

-- the calls made, and the package variable `prevLabels` of internal/metrics
pub record World : Type 0 where
  pub history : History
  pub prev_labels : Assoc Labels

abbrev pub M : Type 0 → Type 0
M A = World → A × World

abbrev pub pure : {A : Type 0} → A → M A
pure result w = (result, w)

infixl 10 ◌>>=◌ ◌>>◌
abbrev pub ◌>>=◌ : {A B : Type 0} → M A → (A → M B) → M B
◌>>=◌ action next w = let (answer, later) = action w in next answer later

abbrev pub ◌>>◌ : {A B : Type 0} → M A → M B → M B
action >> next = action >>= λ _. next

abbrev pub call : {A : Type 0} → Call → (History → A) → M A
call c answer w = (answer w.history, record w { history = c ∷ w.history })

module _ ⦃env : Env⦄ where
  abbrev pub time_now : M ℕ
  time_now = call clock_read env.now

  abbrev pub get_deployment : ObjectKey → M (Result McuDeployment)
  get_deployment k = call (deployment_read k) (λ h. env.get_deployment h k)

  abbrev pub get_node : ObjectKey → M (Result McuNode)
  get_node k = call (node_read k) (λ h. env.get_node h k)

  abbrev pub get_config_map : ObjectKey → M (Result McuConfigMap)
  get_config_map k = call (config_map_read k) (λ h. env.get_config_map h k)

  abbrev pub get_secret : ObjectKey → M (Result Secret)
  get_secret k = call (secret_read k) (λ h. env.get_secret h k)

  abbrev pub list_nodes : Option String → M (Result (List McuNode))
  list_nodes ns = call (nodes_listed ns) (λ h. env.list_nodes h ns)

  abbrev pub list_deployments : String → M (Result (List McuDeployment))
  list_deployments ns = call (deployments_listed ns) (λ h. env.list_deployments h ns)

  abbrev pub patch_deployment : McuDeployment → McuDeployment → M (Result McuDeployment)
  patch_deployment old new = call (deployment_patched old new) (λ h. env.patch_deployment h old new)

  abbrev pub patch_deployment_status : McuDeployment → McuDeployment → M (Result McuDeployment)
  patch_deployment_status old new =
      call (deployment_status_patched old new) (λ h. env.patch_deployment_status h old new)

  -- the flag is MergeFromWithOptimisticLock
  abbrev pub patch_node_status : Bool → McuNode → McuNode → M (Result McuNode)
  patch_node_status lock old new =
      call (node_status_patched lock old new) (λ h. env.patch_node_status h lock old new)

  abbrev pub update_node : McuNode → M (Result McuNode)
  update_node n = call (node_updated n) (λ h. env.update_node h n)

  abbrev pub patch_secret : Secret → Secret → M (Result Secret)
  patch_secret old new = call (secret_patched old new) (λ h. env.patch_secret h old new)

  abbrev pub get_service : ObjectKey → M (Result Service)
  get_service k = call (service_read k) (λ h. env.get_service h k)

  abbrev pub create_service : Service → M (Result (Unit {0}))
  create_service s = call (service_created s) (λ h. env.create_service h s)

  abbrev pub patch_service : Service → Service → M (Result (Unit {0}))
  patch_service old new = call (service_patched old new) (λ h. env.patch_service h old new)

  abbrev pub get_slice : ObjectKey → M (Result EndpointSlice)
  get_slice k = call (slice_read k) (λ h. env.get_slice h k)

  abbrev pub create_slice : EndpointSlice → M (Result (Unit {0}))
  create_slice s = call (slice_created s) (λ h. env.create_slice h s)

  abbrev pub patch_slice : EndpointSlice → EndpointSlice → M (Result (Unit {0}))
  patch_slice old new = call (slice_patched old new) (λ h. env.patch_slice h old new)

  abbrev pub http_do : HttpRequest → M (Result HttpResponse)
  http_do r = call (http_sent r) (λ h. env.http_do h r)

  abbrev pub oci_do : OciRequest → M (Result OciResponse)
  oci_do r = call (oci_sent r) (λ h. env.oci_do h r)

abbrev pub set_gauge : Gauge → Labels → GaugeValue → M (Unit {0})
set_gauge g l v = call (gauge_set g l v) (λ h. tt)

abbrev pub delete_gauge : Gauge → Labels → M (Unit {0})
delete_gauge g l = call (gauge_deleted g l) (λ h. tt)

abbrev pub relay_log : Bool → LogPayload → M (Unit {0})
relay_log is_error entry = call (log_relayed is_error entry) (λ h. tt)

-- the package variable `prevLabels`
abbrev pub read_prev_labels : M (Assoc Labels)
read_prev_labels w = (w.prev_labels, w)

abbrev pub write_prev_labels : Assoc Labels → M (Unit {0})
write_prev_labels m w = (tt, record w { prev_labels = m })

abbrev pub record_event : ObjectKey → EventKind → String → Message → M (Unit {0})
record_event k kind reason m = call (event_recorded k kind reason m) (λ h. tt)
