-- ===== src/Api/Deployment.antt =====
-- api/v1alpha1/mcudeployment_types.go and api/v1alpha1/mcuconfigmap_types.go
use embewi_core.Base.{String, List, Message, Assoc}
use embewi_core.Base.Int.{ℤ}
use embewi_core.Api.Meta.{Condition, Bytes}

pub record FirmwareSpec : Type 0 where
  pub image : Bytes
  pub name : String
  pub version : String

pub record McuDeploymentSpec : Type 0 where
  pub node_name : String
  pub node_selector : Assoc String
  pub firmware : FirmwareSpec
  pub config_map_ref : String
  pub app_port : ℤ

-- The phase is a string: `unset` is "", and `other` any string that is no constant of the package.
pub data McuDeploymentPhase : Type 0 where
  unset binding pulling preparing writing activating confirming deployed failed : McuDeploymentPhase
  other : String → McuDeploymentPhase

pub record McuDeploymentStatus : Type 0 where
  pub phase : McuDeploymentPhase
  pub bound_node : String
  pub deployment_id : String
  pub message : Message
  pub digest : String
  pub size : ℤ
  pub conditions : List Condition

pub record McuDeployment : Type 0 where
  pub name : String
  pub namespace : String
  pub uid : String
  pub annotations : Assoc String
  pub spec : McuDeploymentSpec
  pub status : McuDeploymentStatus

pub record McuConfigMap : Type 0 where
  pub name : String
  pub namespace : String
  pub config_data : Assoc String
