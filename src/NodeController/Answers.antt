-- ===== src/NodeController/Answers.antt =====
-- The object that the later parts of a reconciliation of a node work on: what the API server answered
-- to the last status patch.
use embewi_core.Base.{
  ◌≡◌, refl, String, Bool, true, false, ◌⊎◌, inl, inr, [], ◌∷◌, ◌++◌, ◌||◌, Result, ok, err, ◌==◌,
  if◌then◌else◌, is_not_found,
}
use embewi_core.Api.Meta.{Secret, Bytes}
use embewi_core.Api.Node.{McuNode}
use embewi_core.Agent.Protocol.{Client}
use embewi_core.Agent.Http.{new}
use embewi_core.Agent.Client.{post_reboot, post_tls_cert}
use embewi_core.NodeController.Readiness.{with_readiness}
use embewi_core.NodeController.Secrets.{McuNodeReconciler, key_of_ref, current_token}
use embewi_core.NodeController.Tls.{
  with_tls_digest, record_tls, after_reboot, after_cert, push_cert, apply_cert, tls_in,
  reconcile_tls_cert,
}
use embewi_core.NodeController.Judged.{IsExpiry}
use embewi_core.World.Call.{History}
use embewi_core.World.Env.{Env}
use embewi_core.World.Action.{World, M, get_secret}

module _ ⦃env : Env⦄ where
  -- the API server's answer to the patch that judges readiness
  abbrev pub IsPatched : McuNode → Type 0
  IsPatched node =
      (h : History) × ((old : McuNode) × ((expired : Bool) × (IsExpiry old.status.last_heartbeat
              expired
            × (env.patch_node_status h true old (with_readiness expired old) ≡ ok node))))

  -- that object, or the API server's answer to the patch of it that records a certificate
  abbrev pub IsLatest : McuNode → McuNode → Type 0
  IsLatest first node =
      (node ≡ first)
      ⊎ ((h : History) × ((digest : String) × (env.patch_node_status h false first
                (with_tls_digest digest first)
              ≡ ok node)))

  abbrev Returns : (McuNode → Type 0) → M (Result McuNode) → World → Type 0
  Returns P m w = (n : McuNode) → (m w).0 ≡ ok n → P n

  if-Returns :
      (P : McuNode → Type 0) (b : Bool) (m n : M (Result McuNode)) (w : World)
      → Returns P m w
      → Returns P n w
      → Returns P (if b then m else n) w
  if-Returns P true m n w k l = k
  if-Returns P false m n w k l = l

  module _ (r : McuNodeReconciler) (first : McuNode) where
    unchanged : (n : McuNode) → ok first ≡ ok n → IsLatest first n
    unchanged n e = inl (cc)

    record_tls-IsLatest :
        (answer : Result McuNode) (h : History) (digest : String) (w : World)
        → env.patch_node_status h false first (with_tls_digest digest first) ≡ answer
        → Returns (IsLatest first) (record_tls r answer) w
    unfolding record_tls
    record_tls-IsLatest (err e) h digest w is n f = absurd (cc)
    record_tls-IsLatest (ok node) h digest w is n f = inr (h, (digest, cc))

    after_reboot-IsLatest :
        (digest : String) (answer : Result (Unit {0})) (w : World)
        → Returns (IsLatest first) (after_reboot r first digest answer) w
    unfolding after_reboot
    after_reboot-IsLatest digest (err e) w n f = unchanged n f
    after_reboot-IsLatest digest (ok tt) w n f =
        record_tls-IsLatest (env.patch_node_status w.history false first _) w.history digest _ refl
          n f

    after_cert-IsLatest :
        (digest : String) (cli : Client) (answer : Result (Unit {0})) (w : World)
        → Returns (IsLatest first) (after_cert r first digest cli answer) w
    unfolding after_cert
    after_cert-IsLatest digest cli (err e) w n f = unchanged n f
    after_cert-IsLatest digest cli (ok tt) w n f =
        after_reboot-IsLatest digest (post_reboot cli w).0 (post_reboot cli w).1 n f

    push_cert-IsLatest :
        (digest : String) (cert key : Bytes) (answer : Result Bytes) (w : World)
        → Returns (IsLatest first) (push_cert r first digest cert key answer) w
    unfolding push_cert
    push_cert-IsLatest digest cert key (err e) w =
        if-Returns (IsLatest first) (is_not_found e) _ _ w unchanged (λ n f. absurd (cc))
    push_cert-IsLatest digest cert key (ok []) w = unchanged
    push_cert-IsLatest digest cert key (ok (c ∷ token)) w =
        let cli = new first.status.ip (c ∷ token) in
        let (answer, u) = post_tls_cert cli cert key w in after_cert-IsLatest digest cli answer u

    apply_cert-IsLatest :
        (cert key : Bytes) (w : World) → Returns (IsLatest first) (apply_cert r first cert key) w
    unfolding apply_cert
    apply_cert-IsLatest [] key w = λ n f. absurd (cc)
    apply_cert-IsLatest (c ∷ cert) [] w = λ n f. absurd (cc)
    apply_cert-IsLatest (c ∷ cert) (d ∷ key) w =
        let (token, u) = current_token first w in
        if-Returns (IsLatest first)
          (env.sha256_hex (c ∷ cert ++ d ∷ key) == first.status.tls_cert_digest) _ _ w unchanged
          (push_cert-IsLatest (env.sha256_hex (c ∷ cert ++ d ∷ key)) (c ∷ cert) (d ∷ key) token u)

    tls_in-IsLatest :
        (answer : Result Secret) (w : World) → Returns (IsLatest first) (tls_in r first answer) w
    unfolding tls_in
    tls_in-IsLatest (err e) w =
        if-Returns (IsLatest first) (is_not_found e) _ _ w unchanged (λ n f. absurd (cc))
    tls_in-IsLatest (ok secret) w = apply_cert-IsLatest _ _ w

    pub reconcile_tls_cert-IsLatest :
        (w : World) → Returns (IsLatest first) (reconcile_tls_cert r first) w
    unfolding reconcile_tls_cert
    reconcile_tls_cert-IsLatest w =
        let (secret, u) = get_secret (key_of_ref first first.spec.tls_secret_ref) w in
        if-Returns (IsLatest first)
          (first.spec.tls_secret_ref.name == "" || first.spec.token_ref.name == "") _ _ w unchanged
          (tls_in-IsLatest secret u)
