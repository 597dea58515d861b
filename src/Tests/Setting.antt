-- ===== src/Tests/Setting.antt =====
-- An API server with one node and one deployment, a device and a registry that answer.
use embewi_core.Base.{
  Bool, not, err, api, not_found, plain, str, false, ◌≡◌, refl, arith, String, true, false, Option,
  none, some, List, [], ◌∷◌, ok, no_message, eqb, ◌==◌, eq_iff, if◌then◌else◌, codes, length,
}
use embewi_core.Base.Int.{pos, negsuc}
use embewi_core.Heartbeat.Payload.{HeartbeatPayload, LogPayload}
use embewi_core.Api.Meta.{SecretRef, Bytes, Condition, ConditionApi}
use embewi_core.Api.Node.{McuNode}
use embewi_core.Api.Deployment.{McuDeployment, McuDeploymentPhase}
use embewi_core.Agent.Protocol.{Client, InfoResponse}
use embewi_core.Oci.Types.{Source, eof, Manifest, Descriptor}
use embewi_core.Oci.Blob.{BlobStream}
use embewi_core.Deployment.Device.{McuDeploymentReconciler}
use embewi_core.World.Env.{Env}
use embewi_core.World.Action.{World}

-- conditions kept by type

unfoldable pub set_by_type : List Condition → Condition → List Condition
set_by_type [] c = c ∷ []
set_by_type (d ∷ ds) c =
    let rest = set_by_type ds c in if d.type == c.type then c ∷ ds else d ∷ rest

unfoldable pub find_by_type : List Condition → String → Option Condition
find_by_type [] t = none
find_by_type (d ∷ ds) t = if d.type == t then some d else find_by_type ds t

pub find_by_type-set_by_type :
    (cs : List Condition) (c : Condition) (t : String)
    → find_by_type (set_by_type cs c) t ≡ (if c.type == t then some c else find_by_type cs t)
unfolding set_by_type find_by_type
find_by_type-set_by_type [] c t = refl
find_by_type-set_by_type (d ∷ ds) c t =
    ground (
      arith,
      eq_iff d.type c.type,
      eq_iff d.type t,
      eq_iff c.type t,
      find_by_type-set_by_type ds c t,
    )

abbrev pub test_conditions : ConditionApi
unfolding set_by_type find_by_type
test_conditions = record {
  set_status_condition = set_by_type;
  find_status_condition = find_by_type;
  find-set = find_by_type-set_by_type;
}

-- objects

abbrev pub no_ref : SecretRef
no_ref = record { name = ""; namespace = "" }

abbrev pub test_node : McuNode
test_node = record {
  name = "esp-1";
  namespace = "lab";
  labels = ("zone", "a") ∷ [];
  annotations = [];
  finalizers = [];
  being_deleted = false;
  spec = record { node_id = "esp-1"; token_ref = no_ref; tls_secret_ref = no_ref };
  status = record {
    ip = "10.0.0.7";
    state = "running";
    firmware_name = "";
    firmware_version = "";
    firmware_digest = "";
    deployment_id = "uid-1";
    ota_validated = true;
    heap_free = pos 0;
    rssi = pos 0;
    uptime_ms = pos 0;
    config_generation = pos 0;
    temp_celsius = pos 0;
    task_hwm_min = pos 0;
    chip = "esp32s3";
    idf_version = "5.2";
    flash_size = pos 0;
    ram_size = pos 0;
    app_port = pos 8080;
    api_version = "v1alpha1";
    tls_cert_digest = "";
    last_reboot_requested = "";
    ready = true;
    last_heartbeat = some 0;
    conditions = [];
  };
}

abbrev pub test_image : Bytes
test_image = codes "reg.lab/blink:1"

abbrev pub deployment_in : McuDeploymentPhase → McuDeployment
deployment_in phase = record {
  name = "blink";
  namespace = "lab";
  uid = "uid-1";
  annotations = [];
  spec = record {
    node_name = "";
    node_selector = ("zone", "a") ∷ [];
    firmware = record { image = test_image; name = "blink"; version = "1" };
    config_map_ref = "cfg";
    app_port = pos 8080;
  };
  status = record {
    phase = phase;
    bound_node = "esp-1";
    deployment_id = "uid-1";
    message = no_message;
    digest = "sha256:abc";
    size = pos 3;
    conditions = [];
  };
}

abbrev pub test_key : Bytes
test_key = 7 ∷ 7 ∷ []

abbrev pub test_reconciler : McuDeploymentReconciler
test_reconciler = record {
  oci = record { username = ""; password = ""; trusted_pub_key = some test_key };
  token_secret = "";
}

abbrev pub test_layer : Descriptor
test_layer = record {
  media_type = "application/vnd.embewi.firmware.bin";
  digest = "sha256:abc";
  size = pos 3;
  annotations = ("embewi.io/chip", "esp32s3") ∷ [];
}

abbrev pub test_manifest : Manifest
test_manifest = record {
  schema_version = pos 2;
  media_type = "";
  config = test_layer;
  layers = test_layer ∷ [];
  annotations = ("embewi.io/signature", "sig") ∷ [];
}

abbrev pub source_of : List Bytes → Source
source_of segments = record { segments = segments; eager = true; ending = eof }

abbrev pub stream_from : List Bytes → BlobStream
stream_from segments = record {
  source = source_of segments;
  hashed = [];
  want_digest = "sha256:abc";
  mismatch = none;
}

abbrev pub test_client : Client
test_client = record { base_url = "https://10.0.0.7"; token = 1 ∷ [] }

abbrev test_info : InfoResponse
test_info = record {
  node_id = "esp-1";
  api_versions = "v1alpha1" ∷ [];
  chip = "esp32s3";
  idf_version = "5.2";
  flash_size = pos 0;
  ram_size = pos 0;
  partition_layout = "embewi-ab-v1";
  active_slot = "a";
  firmware = record { name = ""; version = ""; digest = "" };
  staged = record { state = ""; slot = ""; digest = ""; deployment_id = "" };
  state = "running";
  app_port = pos 8080;
  config_generation = pos 0;
}

abbrev pub test_heartbeat : HeartbeatPayload
test_heartbeat = record {
  node_id = "esp-1";
  ip = "10.0.0.7";
  ts = pos 1700000000;
  state = "running";
  deployment_id = "uid-1";
  firmware_digest = "sha256:abc";
  ota_validated = true;
  uptime_ms = pos 5000;
  heap_free = pos 120000;
  rssi = negsuc 59;
  config_generation = pos 1;
  temp_celsius = pos 41500;
  task_hwm_min = pos 900;
  reason = "";
}

abbrev pub test_log : LogPayload
test_log = record { ts = pos 0; node = "esp-1"; workload = "blink"; level = "info"; msg = "up" }

abbrev is_empty : List String → Bool
is_empty [] = true
is_empty (x ∷ xs) = false

-- the digest of the three octets of the firmware is "abc", and of no other text
abbrev pub test_env : Env
test_env = record {
  conditions = test_conditions;
  now = λ h. 5;
  get_deployment = λ h k. ok (deployment_in McuDeploymentPhase.unset);
  get_node = λ h k. ok test_node;
  get_config_map = λ h k.
      ok (record {
        name = "cfg";
        namespace = "lab";
        config_data = ("mode", "x") ∷ ("_id", "y") ∷ [];
      });
  get_secret = λ h k. ok (record { key = k; secret_data = ("esp-1", codes "t0") ∷ [] });
  list_nodes = λ h ns. ok (test_node ∷ []);
  list_deployments = λ h ns. ok (deployment_in McuDeploymentPhase.failed ∷ []);
  patch_deployment = λ h old new. ok new;
  patch_deployment_status = λ h old new. ok new;
  patch_node_status = λ h lock old new. ok new;
  update_node = λ h n. ok n;
  patch_secret = λ h old new. ok new;
  get_service = λ h k. err (api not_found);
  create_service = λ h s. ok tt;
  patch_service = λ h old new. ok tt;
  get_slice = λ h k. err (api not_found);
  create_slice = λ h s. ok tt;
  patch_slice = λ h old new. ok tt;
  set_controller_reference = λ n owners. ok (n.name ∷ []);
  contains_finalizer = λ fs f. not (is_empty fs);
  add_finalizer = λ fs f. (f ∷ [], is_empty fs);
  remove_finalizer = λ fs f. [];
  http_do = λ h r. ok (record { status_code = 200; body = some [] });
  oci_do =
      λ h r. ok (record { status_code = 200; body = source_of ((1 ∷ 2 ∷ []) ∷ (3 ∷ []) ∷ []) });
  decode_info = λ b. ok test_info;
  decode_health = λ b. ok (record { status = "ok" });
  decode_prepare = λ b. ok (record { accepted = true; target_slot = "b"; reason = "" });
  decode_config =
      λ b. ok (record { generation = pos 1; active_generation = pos 1; active = []; nvs = [] });
  decode_write = λ b. ok (record { status = "written"; error = "" });
  decode_written = λ b. pos 0;
  decode_heartbeat = λ b. ok test_heartbeat;
  decode_log = λ b. if eqb (length b) 0 then err (plain (str "json")) else ok test_log;
  decode_manifest = λ s. ok test_manifest;
  sha256_hex = λ b. if eqb (length b) 3 then "abc" else "xyz";
  ed25519_verify = λ k d s. d == "sha256:abc";
  base64_decode = λ s. some (codes s);
  format_rfc3339 = λ t. "now";
  parse_rfc3339 = λ s. some 0;
  host_of_address = λ a. some "10.0.0.7";
}

abbrev pub start : World
start = record { history = []; prev_labels = [] }
