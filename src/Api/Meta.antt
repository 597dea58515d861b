-- ===== src/Api/Meta.antt =====
-- Kubernetes metadata as api/v1alpha1 uses it, and the condition helpers of apimachinery, which
-- are third-party code and so an interface.
use embewi_core.Base.{ℕ, String, ◌≡◌, Option, some, List, ◌==◌, if◌then◌else◌, Message, Assoc}

-- client.ObjectKey, types.NamespacedName
pub record ObjectKey : Type 0 where
  pub name : String
  pub namespace : String

-- SecretRef of mcunode_types.go
pub record SecretRef : Type 0 where
  pub name : String
  pub namespace : String

-- []byte
abbrev pub Bytes : Type 0
Bytes = List ℕ

-- corev1.Secret: its key and its data
pub record Secret : Type 0 where
  pub key : ObjectKey
  pub secret_data : Assoc Bytes

pub data ConditionStatus : Type 0 where
  condition_true condition_false condition_unknown : ConditionStatus

-- metav1.Condition, the fields that the code sets
pub record Condition : Type 0 where
  pub type : String
  pub status : ConditionStatus
  pub reason : String
  pub message : Message

-- apimeta.SetStatusCondition and apimeta.FindStatusCondition: a condition is kept by its type, and
-- setting one leaves those of other types alone. Transition times are not read by the code.
pub record ConditionApi : Type 0 where
  pub set_status_condition : List Condition → Condition → List Condition
  pub find_status_condition : List Condition → String → Option Condition
  pub find-set :
      (cs : List Condition) (c : Condition) (t : String)
      → find_status_condition (set_status_condition cs c) t
        ≡ (if c.type == t then some c else find_status_condition cs t)
