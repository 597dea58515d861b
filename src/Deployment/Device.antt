-- ===== src/Deployment/Device.antt =====
-- internal/controller/mcudeployment_controller.go, nodeToken, nodeClient and persistNodeInfo.
use embewi_core.Base.{
  quoted, String, false, Option, none, some, Result, ok, err, Error, plain, wrap, str, ◌<>◌, ◌==◌,
  if◌then◌else◌, lookup, trim_space,
}
use embewi_core.Base.Int.{pos, eqz}
use embewi_core.Api.Meta.{ObjectKey, Secret, Bytes}
use embewi_core.Api.Node.{McuNode}
use embewi_core.Api.Deployment.{McuDeployment}
use embewi_core.Agent.Protocol.{Client, InfoResponse}
use embewi_core.Agent.Http.{new}
use embewi_core.Agent.Version.{negotiate_api_version}
use embewi_core.Oci.Types.{Client as OciClient}
use embewi_core.World.Env.{Env}
use embewi_core.World.Action.{M, pure, ◌>>=◌, get_node, get_secret, patch_node_status}

-- McuDeploymentReconciler, without the client and the recorder, which are the environment's
pub record McuDeploymentReconciler : Type 0 where
  pub oci : OciClient
  pub token_secret : String

abbrev pub key_of : McuDeployment → ObjectKey
key_of dep = record { name = dep.name; namespace = dep.namespace }

abbrev pub or_default : String → String → String
or_default s d = if s == "" then d else s

-- the Secret that holds the token of a node, and the key in its data
unfoldable pub token_location : String → McuNode → ObjectKey × String
token_location token_secret node =
    if node.spec.token_ref.name == ""
    then (
      record { name = or_default token_secret "embewi-tokens"; namespace = node.namespace },
      node.spec.node_id,
    )
    else (
      record {
        name = node.spec.token_ref.name;
        namespace = or_default node.spec.token_ref.namespace node.namespace;
      },
      "token",
    )

abbrev pub token_of : ObjectKey → String → Result Secret → Result Bytes
token_of at key (err e) =
    err (wrap (str "secret " <> quoted at.namespace <> str "/" <> quoted at.name) e)
token_of at key (ok secret) = elim (lookup key secret.secret_data) [
  | none ↦ err (
      plain (
        str "clé "
        <> quoted key
        <> str " absente du secret "
        <> quoted at.name
        <> str " (namespace "
        <> str at.namespace
        <> str ")"))
  | some tok ↦ ok (trim_space tok)
]

module _ ⦃env : Env⦄ where
  unfoldable pub node_token : McuDeploymentReconciler → McuNode → M (Result Bytes)
  unfolding token_location lookup trim_space
  node_token r node = do
    let (key, data_key) = token_location r.token_secret node
    secret ← get_secret key
    pure (token_of key data_key secret)

  abbrev client_of : McuNode → Result Bytes → Result (McuNode × Client)
  client_of node (err e) = err e
  client_of node (ok token) = ok (node, new node.status.ip token)

  unfoldable pub client_for :
      McuDeploymentReconciler → String → Result McuNode → M (Result (McuNode × Client))
  unfolding node_token new
  client_for r name (err e) = pure (err (wrap (str "McuNode " <> quoted name) e))
  client_for r name (ok node) =
      if node.status.ip == ""
      then pure (
          err (
            plain
              (str "McuNode " <> quoted node.name <> str ": IP inconnue (aucun heartbeat reçu)")))
      else do token ← node_token r node; pure (client_of node token)

  unfoldable pub node_client :
      McuDeploymentReconciler → McuDeployment → M (Result (McuNode × Client))
  unfolding client_for
  node_client r dep = do
    node ← get_node (record { name = dep.status.bound_node; namespace = dep.namespace })
    client_for r dep.status.bound_node node

abbrev version_or_empty : Result String → String
version_or_empty (ok v) = v
version_or_empty (err e) = ""

abbrev error_of : Result String → Option Error
error_of (ok v) = none
error_of (err e) = some e

-- the node's status with what GET /info says
unfoldable pub with_info : McuNode → InfoResponse → McuNode
unfolding negotiate_api_version
with_info node info = record node {
  status = record node.status {
    chip = info.chip;
    idf_version = info.idf_version;
    flash_size = info.flash_size;
    ram_size = info.ram_size;
    app_port = if eqz info.app_port (pos 0) then node.status.app_port else info.app_port;
    api_version = version_or_empty (negotiate_api_version info.api_versions);
  };
}

-- a patch that fails is logged, and the object stays as the code changed it
abbrev pub patched_or : {A : Type 0} → A → Result A → A
patched_or a (ok b) = b
patched_or a (err e) = a

module _ ⦃env : Env⦄ where
  -- the node as it is after the patch, and the error of the negotiation
  unfoldable pub persist_node_info : McuNode → InfoResponse → M (McuNode × Option Error)
  unfolding with_info
  persist_node_info node info = do
    r ← patch_node_status false node (with_info node info)
    pure (patched_or (with_info node info) r, error_of (negotiate_api_version info.api_versions))
