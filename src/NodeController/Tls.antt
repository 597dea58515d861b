-- ===== src/NodeController/Tls.antt =====
-- internal/controller/mcunode_controller.go: reconcileTLSCert. The result is the node as it is
-- afterwards.
use embewi_core.Base.{
  String, Bool, true, false, ◌||◌, [], ◌∷◌, ◌++◌, Result, ok, err, is_not_found, plain, wrap,
  Message, str, quoted, error_text, ◌<>◌, ◌==◌, if◌then◌else◌, lookup,
}
use embewi_core.Api.Meta.{Secret, Bytes}
use embewi_core.Api.Node.{McuNode}
use embewi_core.Agent.Protocol.{Client}
use embewi_core.Agent.Http.{new}
use embewi_core.Agent.Client.{post_tls_cert, post_reboot}
use embewi_core.NodeController.Secrets.{
  McuNodeReconciler, record_if, key_of_ref, data_or_empty, current_token,
}
use embewi_core.World.Call.{normal, warning}
use embewi_core.World.Env.{Env}
use embewi_core.World.Action.{M, pure, ◌>>=◌, ◌>>◌, get_secret, patch_node_status}

abbrev is_empty_octets : Bytes → Bool
is_empty_octets [] = true
is_empty_octets (c ∷ s) = false

abbrev cert_refused : Message
cert_refused = str "POST /tls/cert a échoué : "

abbrev reboot_refused : Message
reboot_refused = str "cert accepté mais POST /reboot a échoué : "

abbrev retried : Message
retried = str " (nouvelle tentative au prochain reconcile)"

abbrev pub with_tls_digest : String → McuNode → McuNode
with_tls_digest digest node = record node {
  status = record node.status { tls_cert_digest = digest };
}

unfoldable pub record_tls : McuNodeReconciler → Result McuNode → M (Result McuNode)
unfolding record_if
record_tls r (err e) = pure (err (wrap (str "patch TLSCertDigest") e))
record_tls r (ok node) = do
  record_if r node normal "TLSCertRotated" (str "certificat TLS mis à jour, device rebooté")
  pure (ok node)

module _ ⦃env : Env⦄ where
  unfoldable pub after_reboot :
      McuNodeReconciler → McuNode → String → Result (Unit {0}) → M (Result McuNode)
  unfolding record_tls record_if
  after_reboot r node digest (err e) = do
    record_if r node warning "TLSCertRotationFailed" (reboot_refused <> error_text e <> retried)
    pure (ok node)
  after_reboot r node digest (ok tt) = do
    answer ← patch_node_status false node (with_tls_digest digest node)
    record_tls r answer

  unfoldable pub after_cert :
      McuNodeReconciler → McuNode → String → Client → Result (Unit {0}) → M (Result McuNode)
  unfolding after_reboot record_if
  after_cert r node digest cli (err e) = do
    record_if r node warning "TLSCertRotationFailed" (cert_refused <> error_text e <> retried)
    pure (ok node)
  after_cert r node digest cli (ok tt) = do
    answer ← post_reboot cli
    after_reboot r node digest answer

  unfoldable pub push_cert :
      McuNodeReconciler → McuNode → String → Bytes → Bytes → Result Bytes → M (Result McuNode)
  unfolding after_cert new
  push_cert r node digest cert key (err e) = if is_not_found e then pure (ok node) else pure (err e)
  push_cert r node digest cert key (ok []) = pure (ok node)
  push_cert r node digest cert key (ok (c ∷ token)) = do
    answer ← post_tls_cert (new node.status.ip (c ∷ token)) cert key
    after_cert r node digest (new node.status.ip (c ∷ token)) answer

  unfoldable pub apply_cert : McuNodeReconciler → McuNode → Bytes → Bytes → M (Result McuNode)
  unfolding push_cert current_token
  apply_cert r node cert key =
      if is_empty_octets cert || is_empty_octets key
      then pure (
          err (
            plain (
              str "secret TLS "
              <> quoted (key_of_ref node node.spec.tls_secret_ref).namespace
              <> str "/"
              <> quoted node.spec.tls_secret_ref.name
              <> str ": tls.crt/tls.key manquants")))
      else if env.sha256_hex (cert ++ key) == node.status.tls_cert_digest
      then pure (ok node)
      else do
        token ← current_token node
        push_cert r node (env.sha256_hex (cert ++ key)) cert key token

  unfoldable pub tls_in : McuNodeReconciler → McuNode → Result Secret → M (Result McuNode)
  unfolding apply_cert lookup
  tls_in r node (err e) = if is_not_found e then pure (ok node) else pure (err e)
  tls_in r node (ok secret) =
      apply_cert r node (data_or_empty (lookup "tls.crt" secret.secret_data))
        (data_or_empty (lookup "tls.key" secret.secret_data))

  unfoldable pub reconcile_tls_cert : McuNodeReconciler → McuNode → M (Result McuNode)
  unfolding tls_in key_of_ref
  reconcile_tls_cert r node =
      if node.spec.tls_secret_ref.name == "" || node.spec.token_ref.name == ""
      then pure (ok node)
      else do secret ← get_secret (key_of_ref node node.spec.tls_secret_ref); tls_in r node secret
