-- ===== src/NodeController/Certificate.antt =====
-- Which certificates reconcileTLSCert sends to a device, and when it takes one to be applied.
use embewi_core.Base.{
  ◌≡◌, ◌≢◌, refl, Bool, String, ◌||◌, false, [], ◌∷◌, ◌++◌, Result, ok, err, ◌==◌, Bool-cases, inl,
  inr, lookup, is_not_found,
}
use embewi_core.Api.Meta.{Secret, Bytes}
use embewi_core.Api.Node.{McuNode}
use embewi_core.Api.Kube.{Service, EndpointSlice}
use embewi_core.Agent.Protocol.{Client, HttpRequest, empty_json, tls_json}
use embewi_core.Agent.Http.{new}
use embewi_core.Agent.Client.{post_reboot, post_tls_cert}
use embewi_core.NodeController.Secrets.{McuNodeReconciler, key_of_ref, data_or_empty, current_token}
use embewi_core.NodeController.Tls.{
  with_tls_digest, record_tls, after_reboot, after_cert, push_cert, apply_cert, tls_in,
  reconcile_tls_cert,
}
use embewi_core.NodeController.Calls.{
  posted, Keeps, record_if-Keeps, current_token-Keeps, post_reboot-Keeps, post_tls_cert-Keeps,
}
use embewi_core.World.Call.{History}
use embewi_core.World.Env.{Env}
use embewi_core.World.Action.{World}
use embewi_core.World.Emits.{same, more, Extends-trans}

module _ ⦃env : Env⦄ (node : McuNode) where
  -- the Secret of the node's spec has this certificate and key, and they are not those applied
  pub record IsNewCert (cert key : Bytes) : Type 0 where
    pub history : History
    pub secret : Secret
    pub secret_is : env.get_secret history (key_of_ref node node.spec.tls_secret_ref) ≡ ok secret
    pub cert_is : data_or_empty (lookup "tls.crt" secret.secret_data) ≡ cert
    pub key_is : data_or_empty (lookup "tls.key" secret.secret_data) ≡ key
    pub has_cert : cert ≢ []
    pub has_key : key ≢ []
    pub differs : (env.sha256_hex (cert ++ key) == node.status.tls_cert_digest) ≡ false

  -- the current token of the node, as its Secret has it at some moment
  pub record IsCurrentToken (token : Bytes) : Type 0 where
    pub world : World
    pub token_is : (current_token node world).0 ≡ ok token
    pub not_empty : token ≢ []

  -- the device accepted the certificate, and then a reboot
  pub record IsInstalled (cert key : Bytes) : Type 0 where
    pub token : Bytes
    pub is_current : IsCurrentToken token
    pub before : World
    pub accepted : (post_tls_cert (new node.status.ip token) cert key before).0 ≡ ok tt
    pub rebooted :
        (post_reboot
          (new node.status.ip token)
          (post_tls_cert (new node.status.ip token) cert key before).1).0
        ≡ ok tt

module _ ⦃env : Env⦄ (S : Bool → McuNode → McuNode → Type 0) (H : HttpRequest → Type 0)
    (V : Service → Type 0) (E : EndpointSlice → Type 0) where
  -- what a policy has to allow for one certificate
  pub record AllowsCert (node : McuNode) (cert key : Bytes) : Type 0 where
    pub sends :
        (token : Bytes)
        → IsCurrentToken node token
        → H (posted (new node.status.ip token) "/tls/cert" (tls_json cert key))
    pub reboots :
        (token : Bytes) (before : World)
        → IsCurrentToken node token
        → (post_tls_cert (new node.status.ip token) cert key before).0 ≡ ok tt
        → H (posted (new node.status.ip token) "/reboot" empty_json)
    pub writes :
        IsInstalled node cert key
        → S false node (with_tls_digest (env.sha256_hex (cert ++ key)) node)

  module _ (r : McuNodeReconciler) where
    record_tls-Keeps : (answer : Result McuNode) (w : World) → Keeps S H V E (record_tls r answer) w
    unfolding record_tls
    record_tls-Keeps (err e) w = same
    record_tls-Keeps (ok node) w = record_if-Keeps S H V E r node _ _ _ w

    after_reboot-Keeps :
        (node : McuNode) (digest : String) (answer : Result (Unit {0})) (w : World)
        → (answer ≡ ok tt → S false node (with_tls_digest digest node))
        → Keeps S H V E (after_reboot r node digest answer) w
    unfolding after_reboot
    after_reboot-Keeps node digest (err e) w k = record_if-Keeps S H V E r node _ _ _ w
    after_reboot-Keeps node digest (ok tt) w k =
        Extends-trans (more (k refl) same) (record_tls-Keeps _ _)

    after_cert-Keeps :
        (node : McuNode) (digest : String) (cli : Client) (answer : Result (Unit {0})) (w : World)
        → (answer ≡ ok tt → H (posted cli "/reboot" empty_json))
        → (answer ≡ ok tt
            → (post_reboot cli w).0 ≡ ok tt
            → S false node (with_tls_digest digest node))
        → Keeps S H V E (after_cert r node digest cli answer) w
    unfolding after_cert
    after_cert-Keeps node digest cli (err e) w h k = record_if-Keeps S H V E r node _ _ _ w
    after_cert-Keeps node digest cli (ok tt) w h k =
        Extends-trans (post_reboot-Keeps S H V E cli w (h refl))
          (after_reboot-Keeps node digest (post_reboot cli w).0 _ (k refl))

    push_cert-Keeps :
        (node : McuNode) (cert key : Bytes) (answer : Result Bytes) (w before : World)
        → (current_token node before).0 ≡ answer
        → AllowsCert node cert key
        → Keeps S H V E (push_cert r node (env.sha256_hex (cert ++ key)) cert key answer) w
    unfolding push_cert
    push_cert-Keeps node cert key (err e) w before is a = elim (Bool-cases (is_not_found e)) [
      | inl f ↦ rw (f) same
      | inr f ↦ rw (f) same
    ]
    push_cert-Keeps node cert key (ok []) w before is a = same
    push_cert-Keeps node cert key (ok (c ∷ token)) w before is a =
        let current : IsCurrentToken node (c ∷ token) = record {
          world = before;
          token_is = is;
          not_empty = λ e. cc;
        } in
        let cli = new node.status.ip (c ∷ token) in
        Extends-trans (post_tls_cert-Keeps S H V E cli cert key w (a.sends (c ∷ token) current)) (
          after_cert-Keeps node _ cli (post_tls_cert cli cert key w).0 _
            (a.reboots (c ∷ token) w current)
            (λ accepted rebooted. a.writes (record {
              token = c ∷ token;
              is_current = current;
              before = w;
              accepted = accepted;
              rebooted = rebooted;
            })))

    apply_cert-Keeps :
        (node : McuNode) (cert key : Bytes) (w : World)
        → (cert ≢ []
            → key ≢ []
            → (env.sha256_hex (cert ++ key) == node.status.tls_cert_digest) ≡ false
            → AllowsCert node cert key)
        → Keeps S H V E (apply_cert r node cert key) w
    unfolding apply_cert
    apply_cert-Keeps node [] key w a = same
    apply_cert-Keeps node (c ∷ cert) [] w a = same
    apply_cert-Keeps node (c ∷ cert) (d ∷ key) w a =
        elim (Bool-cases (env.sha256_hex (c ∷ cert ++ d ∷ key) == node.status.tls_cert_digest)) [
          | inl e ↦ rw (e) same
          | inr e ↦ rw (e) (
              Extends-trans (current_token-Keeps S H V E node w) (
                push_cert-Keeps node (c ∷ cert) (d ∷ key) (current_token node w).0 _ w refl
                  (a (λ e. cc) (λ e. cc) e)))
        ]

    tls_in-Keeps :
        (node : McuNode) (answer : Result Secret) (h : History) (w : World)
        → env.get_secret h (key_of_ref node node.spec.tls_secret_ref) ≡ answer
        → ((cert key : Bytes) → IsNewCert node cert key → AllowsCert node cert key)
        → Keeps S H V E (tls_in r node answer) w
    unfolding tls_in
    tls_in-Keeps node (err e) h w is a = elim (Bool-cases (is_not_found e)) [
      | inl f ↦ rw (f) same
      | inr f ↦ rw (f) same
    ]
    tls_in-Keeps node (ok secret) h w is a =
        apply_cert-Keeps node _ _ w (λ has_cert has_key differs. a _ _ (record {
          history = h;
          secret = secret;
          secret_is = is;
          cert_is = refl;
          key_is = refl;
          has_cert = has_cert;
          has_key = has_key;
          differs = differs;
        }))

    pub reconcile_tls_cert-Keeps :
        (node : McuNode) (w : World)
        → ((cert key : Bytes) → IsNewCert node cert key → AllowsCert node cert key)
        → Keeps S H V E (reconcile_tls_cert r node) w
    unfolding reconcile_tls_cert
    reconcile_tls_cert-Keeps node w a =
        elim (Bool-cases (node.spec.tls_secret_ref.name == "" || node.spec.token_ref.name == "")) [
          | inl e ↦ rw (e) same
          | inr e ↦ rw (e) (Extends-trans (more tt same) (tls_in-Keeps node _ w.history _ refl a))
        ]
