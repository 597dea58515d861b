-- ===== src/Agent/Protocol.antt =====
-- internal/agent/client.go: the bodies of its requests and responses. `json.Marshal` of a request
-- is left symbolic: a payload is the value that is marshalled.
use embewi_core.Base.{ℕ, String, Bool, Option, List, Assoc}
use embewi_core.Base.Int.{ℤ}
use embewi_core.Api.Meta.{Bytes}

pub record FirmwareInfo : Type 0 where
  pub name : String
  pub version : String
  pub digest : String

pub record StagedInfo : Type 0 where
  pub state : String
  pub slot : String
  pub digest : String
  pub deployment_id : String

pub record InfoResponse : Type 0 where
  pub node_id : String
  pub api_versions : List String
  pub chip : String
  pub idf_version : String
  pub flash_size : ℤ
  pub ram_size : ℤ
  pub partition_layout : String
  pub active_slot : String
  pub firmware : FirmwareInfo
  pub staged : StagedInfo
  pub state : String
  pub app_port : ℤ
  pub config_generation : ℤ

pub record PrepareRequest : Type 0 where
  pub deployment_id : String
  pub artifact : Bytes
  pub digest : String
  pub size : ℤ
  pub chip : String
  pub idf_version : String
  pub partition_layout : String

pub record PrepareResponse : Type 0 where
  pub accepted : Bool
  pub target_slot : String
  pub reason : String

pub record ConfigResponse : Type 0 where
  pub generation : ℤ
  pub active_generation : ℤ
  pub active : Assoc String
  pub nvs : Assoc String

pub record HealthResponse : Type 0 where
  pub status : String

-- the answer of PUT /ota/write under 200
pub record WriteResult : Type 0 where
  pub status : String
  pub error : String

pub record ActivateRequest : Type 0 where
  pub deployment_id : String
  pub reboot : Bool

pub data Payload : Type 0 where
  no_body : Payload
  octets : Bytes → Payload
  prepare_json : PrepareRequest → Payload
  activate_json : ActivateRequest → Payload
  config_json : Assoc String → Payload
  empty_json : Payload
  token_json : Bytes → Payload
  port_json : ℤ → Payload
  tls_json : Bytes → Bytes → Payload

pub data Header : Type 0 where
  authorization : Bytes → Header
  content_type : String → Header
  content_range : ℕ → ℕ → ℤ → Header
  x_embewi_deployment_id : String → Header
  x_embewi_digest : String → Header

-- http.Request; `content_length` is `none` where net/http derives it from the body
pub record HttpRequest : Type 0 where
  pub method : String
  pub url : String
  pub headers : List Header
  pub content_length : Option ℕ
  pub body : Payload

-- http.Response; `body` is `none` where reading it fails
pub record HttpResponse : Type 0 where
  pub status_code : ℕ
  pub body : Option Bytes

-- agent.Client: the two http.Clients differ in their timeout alone, which the environment decides
pub record Client : Type 0 where
  pub base_url : String
  pub token : Bytes
