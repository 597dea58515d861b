-- ===== src/NodeController/Secrets.antt =====
-- internal/controller/mcunode_controller.go: the reconciler, the Secrets that a node refers to, and
-- currentToken.
use embewi_core.Base.{
  String, Bool, Option, none, some, [], Result, ok, err, is_not_found, Message, lookup, trim_space,
  ◌==◌, if◌then◌else◌,
}
use embewi_core.Api.Meta.{ObjectKey, Secret, SecretRef, Bytes}
use embewi_core.Api.Node.{McuNode}
use embewi_core.World.Call.{EventKind}
use embewi_core.World.Env.{Env}
use embewi_core.World.Action.{M, pure, ◌>>=◌, get_secret, record_event}

-- McuNodeReconciler, without the client and the scheme, and with whether it has a recorder
pub record McuNodeReconciler : Type 0 where
  pub records : Bool

unfoldable pub record_if : McuNodeReconciler → McuNode → EventKind → String → Message → M (Unit {0})
record_if r node kind reason message =
    if r.records
    then record_event (record { name = node.name; namespace = node.namespace }) kind reason message
    else pure tt

unfoldable pub key_of_ref : McuNode → SecretRef → ObjectKey
key_of_ref node ref = record {
  name = ref.name;
  namespace = if ref.namespace == "" then node.namespace else ref.namespace;
}

-- []byte("") where the key is missing
abbrev pub data_or_empty : Option Bytes → Bytes
data_or_empty none = []
data_or_empty (some b) = b

unfoldable pub token_in : String → Secret → Bytes
unfolding lookup trim_space
token_in key secret = trim_space (data_or_empty (lookup key secret.secret_data))

unfoldable pub current_of : Result Secret → Result Bytes
unfolding token_in
current_of (err e) = if is_not_found e then ok [] else err e
current_of (ok secret) = ok (token_in "token" secret)

module _ ⦃env : Env⦄ where
  unfoldable pub current_token : McuNode → M (Result Bytes)
  unfolding key_of_ref current_of
  current_token node =
      if node.spec.token_ref.name == ""
      then pure (ok [])
      else do secret ← get_secret (key_of_ref node node.spec.token_ref); pure (current_of secret)
