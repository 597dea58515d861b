-- ===== src/Api/Kube.antt =====
-- The Kubernetes objects that the McuNode controller keeps for a node: corev1.Service and
-- discoveryv1.EndpointSlice, the fields that the code sets. `owners` are the owner references.
use embewi_core.Base.{String, Bool, List, Assoc}
use embewi_core.Base.Int.{ℤ}

-- ServicePort and EndpointPort
pub record Port : Type 0 where
  pub name : String
  pub port : ℤ
  pub protocol : String

pub record Service : Type 0 where
  pub name : String
  pub namespace : String
  pub labels : Assoc String
  pub owners : List String
  pub ports : List Port

pub record Endpoint : Type 0 where
  pub addresses : List String
  pub ready : Bool

pub record EndpointSlice : Type 0 where
  pub name : String
  pub namespace : String
  pub labels : Assoc String
  pub owners : List String
  pub address_type : String
  pub endpoints : List Endpoint
  pub ports : List Port
