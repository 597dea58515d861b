-- ===== src/Command/Trusts.antt =====
-- A configured key is enforced, and the parts look for tokens in the same place.
use embewi_core.Base.{
  ◌≡◌, ◌≢◌, refl, sym, ap, ◌∙◌, String, Option, none, some, List, [], ◌∷◌, ◌++◌, ok, ◌==◌, eq_iff,
  length, if◌then◌else◌, Bool-cases, inl, inr, arith,
}
use embewi_core.Api.Meta.{Bytes}
use embewi_core.Api.Node.{McuNode}
use embewi_core.Command.{
  public_key_size, Program, key_of_size, after_options, wire, wired, auth_options, tls_options,
  key_options, oci_options, configure,
}
use embewi_core.Deployment.Device.{token_location}
use embewi_core.Heartbeat.Agreement.{resolve_token_secret-token_location}
use embewi_core.Heartbeat.Tokens.{resolve_token_secret}
use embewi_core.Oci.Types.{Client, FirmwareMeta}
use embewi_core.Oci.Options.{
  ClientOption, with_trusted_public_key, apply_option, apply_options, new,
}
use embewi_core.Oci.Registry.{resolve_firmware}
use embewi_core.Oci.Trust.{IsTrusted, resolve_firmware-IsTrusted}
use embewi_core.World.Env.{Env}
use embewi_core.World.Action.{World}

-- the last option decides
apply_options-append :
    (before after : List ClientOption) (c : Client)
    → apply_options (before ++ after) c ≡ apply_options after (apply_options before c)
unfolding apply_options
apply_options-append [] after c = refl
apply_options-append (o ∷ opts) after c = apply_options-append opts after (apply_option o c)

new-trusted :
    (before : List ClientOption) (key : Bytes)
    → (new (before ++ with_trusted_public_key key ∷ [])).trusted_pub_key ≡ some key
unfolding new apply_options
new-trusted before key =
    ap (λ c. c.trusted_pub_key) (apply_options-append before (with_trusted_public_key key ∷ []) _)

key_of_size-some :
    (answer : Option Bytes) (opts : List ClientOption)
    → key_of_size answer ≡ some opts
    → (key : Bytes) × ((answer ≡ some key)
        × ((length key ≡ public_key_size) × (opts ≡ with_trusted_public_key key ∷ [])))
unfolding key_of_size
key_of_size-some none opts h = absurd (cc)
key_of_size-some (some key) opts h = (key, (refl, (ground arith, ground arith)))

wired-some :
    (token_secret : String) (before : List ClientOption) (keys : Option (List ClientOption))
    (p : Program)
    → wired token_secret (after_options before keys) ≡ some p
    → (ks : List ClientOption) × ((keys ≡ some ks) × (p ≡ wire token_secret (before ++ ks)))
wired-some token_secret before none p h = absurd (cc)
wired-some token_secret before (some ks) p h = (ks, (refl, cc))

module _ ⦃env : Env⦄ (getenv : String → String) where
  -- the program enforces the key of its environment
  pub record Enforces (p : Program) : Type 0 where
    pub key : Bytes
    pub decoded : env.base64_decode (getenv "OCI_TRUSTED_PUBLIC_KEY") ≡ some key
    pub sized : length key ≡ public_key_size
    pub trusts :
        (image : Bytes) (w : World) (meta : FirmwareMeta)
        → (resolve_firmware p.deployments.oci image w).0 ≡ ok meta
        → IsTrusted key meta

  key_options-some :
      (keys : List ClientOption)
      → getenv "OCI_TRUSTED_PUBLIC_KEY" ≢ ""
      → key_options getenv ≡ some keys
      → (key : Bytes) × ((env.base64_decode (getenv "OCI_TRUSTED_PUBLIC_KEY") ≡ some key)
          × ((length key ≡ public_key_size) × (keys ≡ with_trusted_public_key key ∷ [])))
  unfolding key_options
  key_options-some keys set h =
      key_of_size-some _ keys (sym (if_set (getenv "OCI_TRUSTED_PUBLIC_KEY") _ _ set) ∙ h)
    where
      if_set :
          (s : String) (a b : Option (List ClientOption)) → s ≢ "" → (if s == "" then a else b) ≡ b
      if_set s a b set = elim (Bool-cases (s == "")) [
        | inl e ↦ absurd (set ((eq_iff s "").0 e))
        | inr e ↦ rw (e) refl
      ]

  -- If main does not exit, and OCI_TRUSTED_PUBLIC_KEY is set, then it is base64 of a key of 32 octets,
  -- and every firmware that the OCI client of the McuDeployment controller resolves is described by a
  -- manifest with a signature by that key, whatever the other variables say. And the heartbeat server
  -- and that controller look for the token of every node under the same key of the same Secret.
  pub configure-Enforces :
      (token_secret : String) (p : Program)
      → configure getenv token_secret ≡ some p
      → getenv "OCI_TRUSTED_PUBLIC_KEY" ≢ ""
      → Enforces p
        × ((node : McuNode)
            → resolve_token_secret p.server node ≡ token_location p.deployments.token_secret node)
  unfolding configure oci_options
  configure-Enforces token_secret p h set =
      let before =
        auth_options (getenv "OCI_REGISTRY_USER") (getenv "OCI_REGISTRY_PASS")
        ++ tls_options (getenv "OCI_INSECURE_TLS") in
      let (keys, (some_keys, is)) = wired-some token_secret before (key_options getenv) p h in
      let (key, (decoded, (sized, last))) = key_options-some keys set some_keys in
      let trusted : p.deployments.oci.trusted_pub_key ≡ some key =
        ap (λ p. p.deployments.oci.trusted_pub_key) is
        ∙ (unfold wire in ap (λ k. (new (before ++ k)).trusted_pub_key) last)
        ∙ new-trusted before key in
      (
        record {
          key = key;
          decoded = decoded;
          sized = sized;
          trusts =
              λ image w meta. resolve_firmware-IsTrusted p.deployments.oci key image w meta trusted;
        },
        λ node.
            resolve_token_secret-token_location p.server node
            ∙ (unfold wire in
                ap (λ p. token_location p.server.token_secret node) is
                ∙ sym (ap (λ p. token_location p.deployments.token_secret node) is)),
      )
