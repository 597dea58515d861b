-- ===== src/Api/Node.antt =====
-- api/v1alpha1/mcunode_types.go. `temp_celsius` is a float64 in the source, and stands here in
-- thousandths of a degree; times are nanoseconds since the Unix epoch.
use embewi_core.Base.{ℕ, String, Bool, Option, List, Assoc}
use embewi_core.Base.Int.{ℤ}
use embewi_core.Api.Meta.{SecretRef, Condition}

pub record McuNodeSpec : Type 0 where
  pub node_id : String
  pub token_ref : SecretRef
  pub tls_secret_ref : SecretRef

pub record McuNodeStatus : Type 0 where
  pub ip : String
  pub state : String
  pub firmware_name : String
  pub firmware_version : String
  pub firmware_digest : String
  pub deployment_id : String
  pub ota_validated : Bool
  pub heap_free : ℤ
  pub rssi : ℤ
  pub uptime_ms : ℤ
  pub config_generation : ℤ
  pub temp_celsius : ℤ
  pub task_hwm_min : ℤ
  pub chip : String
  pub idf_version : String
  pub flash_size : ℤ
  pub ram_size : ℤ
  pub app_port : ℤ
  pub api_version : String
  pub tls_cert_digest : String
  pub last_reboot_requested : String
  pub ready : Bool
  pub last_heartbeat : Option ℕ
  pub conditions : List Condition

-- `being_deleted` is `!DeletionTimestamp.IsZero()`
pub record McuNode : Type 0 where
  pub name : String
  pub namespace : String
  pub labels : Assoc String
  pub annotations : Assoc String
  pub finalizers : List String
  pub being_deleted : Bool
  pub spec : McuNodeSpec
  pub status : McuNodeStatus
