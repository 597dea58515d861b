-- ===== src/NodeController/Kept.antt =====
-- What a reconciliation of a node writes and sends.
use embewi_core.Base.{◌≡◌, refl, Bool, true, false, ◌⊎◌, inl, inr, ◌++◌, ok}
use embewi_core.Api.Meta.{ObjectKey, Bytes}
use embewi_core.Api.Node.{McuNode}
use embewi_core.Api.Kube.{Service, EndpointSlice}
use embewi_core.Agent.Protocol.{HttpRequest, empty_json, token_json, tls_json}
use embewi_core.Agent.Http.{new}
use embewi_core.Agent.Client.{post_tls_cert}
use embewi_core.NodeController.Secrets.{McuNodeReconciler}
use embewi_core.NodeController.Tls.{with_tls_digest, reconcile_tls_cert}
use embewi_core.NodeController.Reboot.{with_reboot}
use embewi_core.NodeController.Reconcile.{reconcile_node}
use embewi_core.NodeController.Calls.{NodePolicy, posted}
use embewi_core.NodeController.Certificate.{IsNewCert, IsCurrentToken, IsInstalled}
use embewi_core.NodeController.Rotation.{IsRotation}
use embewi_core.NodeController.Restart.{requested_of, IsPending, IsRebooted}
use embewi_core.NodeController.Exposed.{Exposes, Routes}
use embewi_core.NodeController.Judged.{IsJudged, with_readiness-JudgedAs}
use embewi_core.NodeController.Answers.{IsPatched, IsLatest}
use embewi_core.NodeController.Allowed.{reconcile_node-Keeps}
use embewi_core.World.Env.{Env}
use embewi_core.World.Action.{World}
use embewi_core.World.Emits.{Extends}

abbrev pub AnyStatus : Bool → McuNode → McuNode → Type 0
AnyStatus lock old new = Unit

abbrev pub AnyRequest : HttpRequest → Type 0
AnyRequest r = Unit

abbrev pub AnyService : Service → Type 0
AnyService s = Unit

abbrev pub AnySlice : EndpointSlice → Type 0
AnySlice e = Unit

module _ ⦃env : Env⦄ where
  -- a patch with the lock judges readiness
  abbrev pub JudgesLocked : Bool → McuNode → McuNode → Type 0
  JudgesLocked true old new = IsJudged old new
  JudgesLocked false old new = Unit

  -- the new status records a certificate, or a reboot request, that the device has accepted
  abbrev pub Records : McuNode → McuNode → Type 0
  Records old new =
      ((cert : Bytes) × ((key : Bytes) × (IsNewCert old cert key
            × (IsInstalled old cert key
                × (new ≡ with_tls_digest (env.sha256_hex (cert ++ key)) old)))))
      ⊎ (IsPending old × (IsRebooted old × (new ≡ with_reboot (requested_of old) old)))

  -- a patch without the lock records what the device has accepted
  abbrev pub RecordsUnlocked : Bool → McuNode → McuNode → Type 0
  RecordsUnlocked true old new = Unit
  RecordsUnlocked false old new = Records old new

  -- the requests to a device
  pub data MaySend (r : McuNodeReconciler) : HttpRequest → Type 0 where
    rotation :
        (node : McuNode) (previous new_token : Bytes)
        → IsPatched node
        → IsRotation node previous new_token
        → MaySend r (posted (new node.status.ip previous) "/token" (token_json new_token))
    certificate :
        (node : McuNode) (cert key token : Bytes)
        → IsPatched node
        → IsNewCert node cert key
        → IsCurrentToken node token
        → MaySend r (posted (new node.status.ip token) "/tls/cert" (tls_json cert key))
    reboot_with_cert :
        (node : McuNode) (cert key token : Bytes) (before : World)
        → IsPatched node
        → IsNewCert node cert key
        → IsCurrentToken node token
        → (post_tls_cert (new node.status.ip token) cert key before).0 ≡ ok tt
        → MaySend r (posted (new node.status.ip token) "/reboot" empty_json)
    reboot_on_request :
        (first node : McuNode) (before : World) (token : Bytes)
        → IsPatched first
        → (reconcile_tls_cert r first before).0 ≡ ok node
        → IsLatest first node
        → IsPending node
        → IsCurrentToken node token
        → MaySend r (posted (new node.status.ip token) "/reboot" empty_json)

  -- Every status patch that a reconciliation of a node makes with the optimistic lock judges the node
  -- by its last heartbeat: Ready is true exactly where that heartbeat is not more than 10 seconds older
  -- than an answer of the clock, the state is running and the image is validated; where the heartbeat
  -- is older, the state becomes offline and the Ready condition HeartbeatTimeout; where there was
  -- none, the state stays, the Provisioned condition is False and the Ready condition Unknown. The
  -- state of a node that is not late stays, and so do the spec, the annotations, the IP, the
  -- deployment id, the digest and the heartbeat's time.
  pub reconcile_node-IsJudged :
      (r : McuNodeReconciler) (key : ObjectKey) (w : World)
      → Extends
          (NodePolicy JudgesLocked AnyRequest AnyService AnySlice)
          w.history
          (reconcile_node r key w).1.history
  reconcile_node-IsJudged r key w =
      reconcile_node-Keeps _ _ _ _ r
        (record {
          judges = λ node expired is. (expired, (is, with_readiness-JudgedAs node expired));
          exposes = λ _ _ _ _. tt;
          routes = λ _ _ _ _. tt;
          rotates = λ _ _ _ _ _. tt;
          certifies =
              λ _ _ _ _ _. record { sends = λ _ _. tt; reboots = λ _ _ _ _. tt; writes = λ _. tt };
          reboots = λ _ _ _ _ _ _ _ _ _. tt;
          restarts = λ _ _ _. tt;
        })
        key w

  -- Every status patch that a reconciliation of a node makes without the lock records what the device
  -- has done. Either it records the SHA-256 digest of a certificate and its key, both not empty, that
  -- the node's TLS Secret holds and whose digest is not the one recorded, and then the device has
  -- accepted POST /tls/cert with them and, next, POST /reboot, with the node's current token; or it
  -- records the value of the reboot annotation, which is not empty and not the one recorded, and then
  -- the device has accepted POST /reboot with that token. Nothing else of the object changes.
  pub reconcile_node-Records :
      (r : McuNodeReconciler) (key : ObjectKey) (w : World)
      → Extends
          (NodePolicy RecordsUnlocked AnyRequest AnyService AnySlice)
          w.history
          (reconcile_node r key w).1.history
  reconcile_node-Records r key w =
      reconcile_node-Keeps _ _ _ _ r
        (record {
          judges = λ _ _ _. tt;
          exposes = λ _ _ _ _. tt;
          routes = λ _ _ _ _. tt;
          rotates = λ _ _ _ _ _. tt;
          certifies = λ node cert key patched fresh. record {
            sends = λ _ _. tt;
            reboots = λ _ _ _ _. tt;
            writes = λ installed. inl (cert, (key, (fresh, (installed, refl))));
          };
          reboots = λ _ _ _ _ _ _ _ _ _. tt;
          restarts = λ node pending rebooted. inr (pending, (rebooted, refl));
        })
        key w

  -- A reconciliation of a node sends a device nothing but these POSTs, with a token of that node's own
  -- Secret: /token with the new token under the previous one, where the Secret holds both and neither
  -- is empty; /tls/cert with the certificate and key of the node's TLS Secret, where their digest is not
  -- the one recorded; /reboot after a /tls/cert that was accepted, or where the reboot annotation is not
  -- empty and not the one recorded. Each goes to the IP of an object that the API server answered to the
  -- patch that judges readiness; a reboot on request, to that of the object that reconcileTLSCert
  -- returned for such an object, which is the same one or the API server's answer to the patch of it
  -- that records the certificate.
  pub reconcile_node-MaySend :
      (r : McuNodeReconciler) (key : ObjectKey) (w : World)
      → Extends
          (NodePolicy AnyStatus (MaySend r) AnyService AnySlice)
          w.history
          (reconcile_node r key w).1.history
  reconcile_node-MaySend r key w =
      reconcile_node-Keeps _ _ _ _ r
        (record {
          judges = λ _ _ _. tt;
          exposes = λ _ _ _ _. tt;
          routes = λ _ _ _ _. tt;
          rotates = rotation;
          certifies = λ node cert key patched fresh. record {
            sends = λ token current. certificate node cert key token patched fresh current;
            reboots = λ token before current accepted.
                reboot_with_cert node cert key token before patched fresh current accepted;
            writes = λ _. tt;
          };
          reboots = reboot_on_request;
          restarts = λ _ _ _. tt;
        })
        key w

  -- Every Service that a reconciliation of a node creates or patches has the one TCP port of the
  -- application and the node for its owner, and every EndpointSlice has that port, that owner, and one
  -- endpoint: the node's IP, ready exactly if the node's status is. That node is the object that the API
  -- server answered to the patch by which this reconciliation judges its readiness.
  pub reconcile_node-Routes :
      (r : McuNodeReconciler) (key : ObjectKey) (w : World)
      → Extends
          (NodePolicy AnyStatus AnyRequest
            (λ s. (node : McuNode) × (IsPatched node × Exposes node s))
            (λ e. (node : McuNode) × (IsPatched node × Routes node e)))
          w.history
          (reconcile_node r key w).1.history
  reconcile_node-Routes r key w =
      reconcile_node-Keeps _ _ _ _ r
        (record {
          judges = λ _ _ _. tt;
          exposes = λ node s patched x. (node, (patched, x));
          routes = λ node e patched x. (node, (patched, x));
          rotates = λ _ _ _ _ _. tt;
          certifies =
              λ _ _ _ _ _. record { sends = λ _ _. tt; reboots = λ _ _ _ _. tt; writes = λ _. tt };
          reboots = λ _ _ _ _ _ _ _ _ _. tt;
          restarts = λ _ _ _. tt;
        })
        key w
