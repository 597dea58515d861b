-- ===== src/Tests/Devices.antt =====
-- A request, a Secret in rotation, a retry and gauges to run the heartbeat server and the McuNode
-- controller with.
use embewi_core.Base.{
  ◌≡◌, refl, true, false, ◌&&◌, Option, none, some, [], ◌∷◌, ok, if◌then◌else◌, codes, Bool-cases,
  inl, inr, Result, Assoc,
}
use embewi_core.Base.Int.{pos}
use embewi_core.Api.Meta.{Bytes}
use embewi_core.Api.Node.{McuNode}
use embewi_core.Heartbeat.Request.{IncomingRequest, plain_request}
use embewi_core.Heartbeat.Nodes.{Server}
use embewi_core.Metrics.{HeartbeatData}
use embewi_core.Metrics.Series.{GaugeApi, same_gauge, same_labels, is_gauge_call}
use embewi_core.NodeController.Secrets.{McuNodeReconciler}
use embewi_core.World.Call.{Call, History, Labels, Gauge, GaugeValue, gauge_set, gauge_deleted}
use embewi_core.World.Env.{Env}
use embewi_core.World.Action.{World, M}
use embewi_core.World.Retry.{RetryApi, is_retried, Retried, last, again}
use embewi_core.Tests.Setting.{test_env, test_node}

-- a retry that gives up after the second attempt
abbrev retry_once : {A : Type 0} → M (Result A) → M (Result A)
retry_once m w = if is_retried (m w).0 then m (m w).1 else m w

pub retry_once-Retried : {A : Type 0} (m : M (Result A)) (w : World) → Retried m w (retry_once m w)
retry_once-Retried m w = elim (Bool-cases (is_retried (m w).0)) [
  | inl e ↦ rw (e) (again e last)
  | inr e ↦ rw (e) last
]

abbrev pub test_retry : RetryApi
test_retry = record {
  retry_on_conflict = retry_once;
  retry_on_conflict-Retried = retry_once-Retried;
}

-- the gauges as a list of what was set last
unfoldable pub shown_series : History → Gauge → Labels → Option GaugeValue
shown_series [] g l = none
shown_series (gauge_set g' l' v ∷ h) g l =
    let before = shown_series h g l in
    if same_gauge g' g && same_labels l' l then some v else before
shown_series (gauge_deleted g' l' ∷ h) g l =
    let before = shown_series h g l in if same_gauge g' g && same_labels l' l then none else before
shown_series (_ ∷ h) g l = shown_series h g l

pub shown_series-other :
    (c : Call) (h : History) (g : Gauge) (l : Labels)
    → is_gauge_call c ≡ false
    → shown_series (c ∷ h) g l ≡ shown_series h g l
unfolding shown_series
shown_series-other (gauge_set g' l' v) h g l e = absurd (cc)
shown_series-other (gauge_deleted g' l') h g l e = absurd (cc)
shown_series-other _ h g l e = refl

abbrev pub test_gauges : GaugeApi
unfolding shown_series
test_gauges = record {
  series = shown_series;
  series-set = λ h g' l' v g l. refl;
  series-deleted = λ h g' l' g l. refl;
  series-other = shown_series-other;
}

abbrev pub test_server : Server
test_server = record { token_secret = ""; records = true }

-- a POST of a heartbeat
abbrev pub request_with : Bytes → IncomingRequest
request_with auth = record {
  method = "POST";
  authorization = auth;
  remote_addr = "10.0.0.7:4711";
  body = record { octets = 1 ∷ []; failure = none };
  socket = plain_request;
}

abbrev pub test_request : IncomingRequest
test_request = request_with (codes "Bearer t0")

abbrev pub test_nodes : McuNodeReconciler
test_nodes = record { records = true }

-- a node with a Secret of its own, a certificate and a reboot request
abbrev pub own_node : McuNode
own_node = record test_node {
  annotations = ("embewi.io/reboot-requested", "1") ∷ [];
  spec = record {
    node_id = "esp-1";
    token_ref = record { name = "esp-1-token"; namespace = "" };
    tls_secret_ref = record { name = "esp-1-tls"; namespace = "" };
  };
}

abbrev pub rotating_data : Assoc Bytes
rotating_data =
    ("token", codes "t1")
    ∷ ("previousToken", codes "t0")
    ∷ ("tls.crt", codes "c")
    ∷ ("tls.key", codes "k")
    ∷ []

-- a Secret that holds the new token and the previous one
abbrev pub rotating_env : Env
rotating_env = record test_env {
  get_node = λ h k. ok own_node;
  list_nodes = λ h ns. ok (own_node ∷ []);
  get_secret = λ h k. ok (record { key = k; secret_data = rotating_data });
}

abbrev pub test_beat : HeartbeatData
test_beat = record {
  node_id = "esp-1";
  workload = "uid-1";
  chip = "esp32s3";
  heap_free = pos 1;
  rssi = pos 0;
  uptime_ms = pos 5;
  temp_celsius = pos 40000;
  task_hwm_min = pos 3;
  config_generation = pos 1;
  ts = pos 9;
  ota_validated = true;
}
