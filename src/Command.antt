-- ===== src/Command.antt =====
-- cmd/controller/main.go: how the program reads its configuration and gives it to its parts. `getenv`
-- is os.Getenv; the manager of controller-runtime and the failures of its calls are left out.
pub mod Trusts
use embewi_core.Base.{
  ℕ, String, true, Option, none, some, List, [], ◌∷◌, ◌++◌, ◌==◌, eqb, length, if◌then◌else◌,
}
use embewi_core.Api.Meta.{Bytes}
use embewi_core.Deployment.Device.{McuDeploymentReconciler}
use embewi_core.Heartbeat.Nodes.{Server}
use embewi_core.NodeController.Secrets.{McuNodeReconciler}
use embewi_core.Oci.Options.{
  ClientOption, with_basic_auth, with_insecure_tls, with_trusted_public_key, new,
}
use embewi_core.World.Env.{Env}

-- ed25519.PublicKeySize
abbrev pub public_key_size : ℕ
public_key_size = 32

-- what the program starts
pub record Program : Type 0 where
  pub nodes : McuNodeReconciler
  pub deployments : McuDeploymentReconciler
  pub server : Server

unfoldable pub auth_options : String → String → List ClientOption
auth_options user pass = if user == "" then [] else with_basic_auth user pass ∷ []

unfoldable pub tls_options : String → List ClientOption
tls_options insecure = if insecure == "true" then with_insecure_tls ∷ [] else []

-- a key that is not base64 of 32 octets ends the program: `none`
unfoldable pub key_of_size : Option Bytes → Option (List ClientOption)
key_of_size none = none
key_of_size (some key) =
    if eqb (length key) public_key_size then some (with_trusted_public_key key ∷ []) else none

abbrev pub after_options :
    List ClientOption → Option (List ClientOption) → Option (List ClientOption)
after_options before none = none
after_options before (some opts) = some (before ++ opts)

-- the parts, all of them with a recorder
unfoldable pub wire : String → List ClientOption → Program
wire token_secret opts = record {
  nodes = record { records = true };
  deployments = record { oci = new opts; token_secret = token_secret };
  server = record { token_secret = token_secret; records = true };
}

abbrev wired : String → Option (List ClientOption) → Option Program
wired token_secret none = none
wired token_secret (some opts) = some (wire token_secret opts)

module _ ⦃env : Env⦄ (getenv : String → String) where
  unfoldable pub key_options : Option (List ClientOption)
  unfolding key_of_size
  key_options =
      if getenv "OCI_TRUSTED_PUBLIC_KEY" == ""
      then some []
      else key_of_size (env.base64_decode (getenv "OCI_TRUSTED_PUBLIC_KEY"))

  unfoldable pub oci_options : Option (List ClientOption)
  unfolding auth_options tls_options key_options
  oci_options =
      after_options
        (auth_options (getenv "OCI_REGISTRY_USER") (getenv "OCI_REGISTRY_PASS")
          ++ tls_options (getenv "OCI_INSECURE_TLS"))
        key_options

  -- `none` where main exits
  unfoldable pub configure : String → Option Program
  unfolding oci_options wire
  configure token_secret = wired token_secret oci_options
