-- ===== src/NodeController/Writes.antt =====
-- Which statuses of a node a reconciliation of the node writes.
use embewi_core.Base.{◌≡◌, refl, Bool, true, false}
use embewi_core.Api.Meta.{ObjectKey}
use embewi_core.Api.Node.{McuNode}
use embewi_core.NodeController.Allowed.{reconcile_node-Keeps}
use embewi_core.NodeController.Calls.{NodePolicy}
use embewi_core.NodeController.Judged.{IsExpiry}
use embewi_core.NodeController.Kept.{AnyRequest, AnyService, AnySlice}
use embewi_core.NodeController.Readiness.{with_readiness}
use embewi_core.NodeController.Reconcile.{reconcile_node}
use embewi_core.NodeController.Secrets.{McuNodeReconciler}
use embewi_core.World.Env.{Env}
use embewi_core.World.Action.{World}
use embewi_core.World.Emits.{Extends}
use embewi_core.World.Policy.{KeepsReadiness}

module _ ⦃env : Env⦄ where
  -- with the lock, the judgement of readiness; without it, other fields
  abbrev pub Writes : Bool → McuNode → McuNode → Type 0
  Writes true old new =
      (expired : Bool) × (IsExpiry old.status.last_heartbeat expired
        × (new ≡ with_readiness expired old))
  Writes false old new = KeepsReadiness old new

  pub reconcile_node-Writes :
      (r : McuNodeReconciler) (key : ObjectKey) (w : World)
      → Extends
          (NodePolicy Writes AnyRequest AnyService AnySlice)
          w.history
          (reconcile_node r key w).1.history
  reconcile_node-Writes r key w =
      reconcile_node-Keeps _ _ _ _ r
        (record {
          judges = λ node expired is. (expired, (is, refl));
          exposes = λ _ _ _ _. tt;
          routes = λ _ _ _ _. tt;
          rotates = λ _ _ _ _ _. tt;
          certifies = λ node cert key patched fresh. record {
            sends = λ _ _. tt;
            reboots = λ _ _ _ _. tt;
            writes = λ _. record {
              same_ready = refl;
              same_state = refl;
              same_validated = refl;
              same_heartbeat = refl;
              same_conditions = refl;
            };
          };
          reboots = λ _ _ _ _ _ _ _ _ _. tt;
          restarts = λ _ _ _. record {
            same_ready = refl;
            same_state = refl;
            same_validated = refl;
            same_heartbeat = refl;
            same_conditions = refl;
          };
        })
        key w
