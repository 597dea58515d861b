-- ===== src/Heartbeat/Attempts.antt =====
-- What the attempts of RetryOnConflict in handleHeartbeat write, and what follows them.
use mathlib.Core.Path.{subst₂}
use embewi_core.Base.{◌≡◌, refl, sym, ap, ◌∙◌, Error, String, ℕ, Bool, true, ◌∷◌, Result, ok, err}
use embewi_core.Api.Meta.{ObjectKey, Secret}
use embewi_core.Api.Node.{McuNode}
use embewi_core.Metrics.Calls.{update_from_heartbeat-Emits}
use embewi_core.Heartbeat.Payload.{HeartbeatPayload, LogPayload}
use embewi_core.Heartbeat.Status.{with_heartbeat, metrics_of}
use embewi_core.Heartbeat.Server.{patch_read, attempt, publish}
use embewi_core.World.Call.{History, node_status_patched}
use embewi_core.World.Env.{Env}
use embewi_core.World.Action.{World}
use embewi_core.World.Emits.{Any, Extends, same, more, Extends-trans, Emits}
use embewi_core.World.Retry.{RetryApi, Retried-Extends_from, Retried-run}
use embewi_core.Heartbeat.Guarded.{Guarded}

module _ ⦃env : Env⦄ where
  -- in the run from one history to the other, the API server accepted a status patch
  pub record Accepted (start final : History) : Type 0 where
    pub at : History
    pub old : McuNode
    pub new : McuNode
    pub answer : McuNode
    pub reached : Extends Any start at
    pub is_accepted : env.patch_node_status at true old new ≡ ok answer
    pub made : Extends Any (node_status_patched true old new ∷ at) final

  -- the object is the API server's answer to a Get after that history
  abbrev pub IsRead : History → ObjectKey → McuNode → Type 0
  IsRead start key node = (h : History) × (Extends Any start h × (env.get_node h key ≡ ok node))

module _ ⦃env : Env⦄ (S : Bool → McuNode → McuNode → Type 0) (K : Secret → Secret → Type 0)
    (G : Type 0) (L : Bool → LogPayload → Type 0) where
  module _ (start : History) (hb : HeartbeatPayload) (key : ObjectKey)
      (status : (ip : String) (now : ℕ) (old : McuNode)
        → IsRead start key old
        → S true old (with_heartbeat hb ip now old)) where
    patch_read-Keeps :
        (ip : String) (now : ℕ) (r : Result McuNode) (w : World)
        → ((node : McuNode) → r ≡ ok node → IsRead start key node)
        → Extends (Guarded S K G L) w.history (patch_read hb ip now r w).1.history
    unfolding patch_read
    patch_read-Keeps ip now (err e) w k = same
    patch_read-Keeps ip now (ok node) w k = more (status ip now node (k node refl)) same

    attempt-Keeps :
        (ip : String) (now : ℕ) (w : World)
        → Extends Any start w.history
        → Extends (Guarded S K G L) w.history (attempt hb ip now key w).1.history
    unfolding attempt
    attempt-Keeps ip now w reached = Extends-trans (more tt same) (
        patch_read-Keeps ip now (env.get_node w.history key) _
          (λ node is. (w.history, (reached, is))))

  patch_read-Any :
      (hb : HeartbeatPayload) (ip : String) (now : ℕ) (r : Result McuNode) (w : World)
      → Extends Any w.history (patch_read hb ip now r w).1.history
  unfolding patch_read
  patch_read-Any hb ip now (err e) w = same
  patch_read-Any hb ip now (ok node) w = more tt same

  attempt-Any :
      (hb : HeartbeatPayload) (ip : String) (now : ℕ) (key : ObjectKey)
      → Emits Any (attempt hb ip now key)
  unfolding attempt
  attempt-Any hb ip now key = record {
    at = λ w. Extends-trans (more tt same) (patch_read-Any hb ip now _ _);
  }

  publish-Any :
      (hb : HeartbeatPayload) (r : Result McuNode) (w : World)
      → Extends Any w.history (publish hb r w).1.history
  unfolding publish
  publish-Any hb (err e) w = same
  publish-Any hb (ok node) w =
      (update_from_heartbeat-Emits Any (λ _ _. tt) (λ _ _ _. tt)
          (metrics_of hb node.status.chip)).at
        w

  patch_read-Accepted :
      (start final : History) (hb : HeartbeatPayload) (ip : String) (now : ℕ) (r : Result McuNode)
      (w : World) (n : McuNode)
      → Extends Any start w.history
      → Extends Any (patch_read hb ip now r w).1.history final
      → (patch_read hb ip now r w).0 ≡ ok n
      → Accepted start final
  unfolding patch_read
  patch_read-Accepted start final hb ip now (err e) w n reached made h = absurd (err_ok h)
    where
      err_ok : {A : Type 0} {a : A} {e : Error} → err e ≡ ok a → ⊥
      err_ok h = cc
  patch_read-Accepted start final hb ip now (ok node) w n reached made h = record {
    at = w.history;
    old = node;
    new = with_heartbeat hb ip now node;
    answer = n;
    reached = reached;
    is_accepted = h;
    made = made;
  }

  publish-Keeps :
      (hb : HeartbeatPayload) (r : Result McuNode) (w : World)
      → ((n : McuNode) → r ≡ ok n → G)
      → Extends (Guarded S K G L) w.history (publish hb r w).1.history
  unfolding publish
  publish-Keeps hb (err e) w k = same
  publish-Keeps hb (ok node) w k =
      let g = k node refl in
      (update_from_heartbeat-Emits _ (λ _ _. g) (λ _ _ _. g) (metrics_of hb node.status.chip)).at w

  module _ ⦃api : RetryApi⦄ where
    pub attempts-Keeps :
        (start final : History) (hb : HeartbeatPayload) (ip : String) (now : ℕ) (key : ObjectKey)
        (w : World)
        → ((ip : String) (now : ℕ) (old : McuNode)
            → IsRead start key old
            → S true old (with_heartbeat hb ip now old))
        → Extends Any start w.history
        → let out = api.retry_on_conflict (attempt hb ip now key) w in
          ((publish hb out.0 out.1).1.history ≡ final)
          → (Accepted start final → G)
          → Extends (Guarded S K G L) w.history (publish hb out.0 out.1).1.history
    unfolding attempt
    attempts-Keeps start final hb ip now key w status reached ends gauges =
        let out = api.retry_on_conflict (attempt hb ip now key) w in
        let tries = api.retry_on_conflict-Retried (attempt hb ip now key) w in
        let (before, (later, is)) =
          Retried-run (attempt hb ip now key) (attempt-Any hb ip now key) tries in
        let made : Extends Any (attempt hb ip now key before).1.history final =
          subst₂ (λ o f. Extends Any o.1.history f) (sym is) ends (publish-Any hb out.0 out.1) in
        Extends-trans
          (Retried-Extends_from start (attempt hb ip now key)
            (attempt-Keeps start hb key status ip now) reached tries)
          (publish-Keeps hb out.0 out.1 (λ n e. gauges (
            patch_read-Accepted start final hb ip now _ _ n
              (Extends-trans reached (Extends-trans later (more tt same))) made
              (ap (λ o. o.0) is ∙ e))))
