-- ===== src/NodeController/Interleaved.antt =====
-- The status of a node under the writes of the heartbeat server and the two controllers, in any order.
-- A step is a write that one of their runs makes, whatever the run was answered. A write with the
-- optimistic lock is of the object that it replaces. A write without it is a merge patch, which changes
-- no field that it leaves alone, of an object that may be another by then. An update of the object
-- leaves the status, which is a subresource.
use mathlib.Core.Path.{subst}
use embewi_core.Base.{Bool, ◌≡◌, ◌≢◌, refl, sym, true, false, ◌⊎◌, inl, inr}
use embewi_core.Api.Node.{McuNode}
use embewi_core.Api.Meta.{ObjectKey}
use embewi_core.Api.Deployment.{McuDeployment}
use embewi_core.Deployment.Device.{McuDeploymentReconciler}
use embewi_core.Deployment.Lifecycle.{dispatch-Follows}
use embewi_core.Deployment.Reconcile.{dispatch}
use embewi_core.Heartbeat.Nodes.{Server}
use embewi_core.Heartbeat.Request.{IncomingRequest}
use embewi_core.Heartbeat.Server.{handle_heartbeat}
use embewi_core.NodeController.Reconcile.{reconcile_node}
use embewi_core.NodeController.Secrets.{McuNodeReconciler}
use embewi_core.NodeController.Sound.{
  IsCreated, IsSound, IsCreated-IsSound, heard-IsSound, judged-IsSound, kept-IsSound,
}
use embewi_core.NodeController.Writes.{reconcile_node-Writes}
use embewi_core.World.Call.{node_status_patched, node_updated}
use embewi_core.World.Action.{World}
use embewi_core.World.Made.{Made, Made-holds}
use embewi_core.World.Policy.{KeepsReadiness}
use embewi_core.World.Retry.{RetryApi}
use embewi_core.Heartbeat.Reports.{handle_heartbeat-IsReport}
use embewi_core.World.Env.{Env}

-- the patch from one object to the other leaves a field of this one alone, if it does not change it
abbrev IsMerged : {A : Type 0} → (McuNode → A) → McuNode → McuNode → McuNode → McuNode → Type 0
IsMerged field old new n m = (field new ≢ field old) ⊎ (field m ≡ field n)

-- the merge patch from `old` to `new` makes `m` of `n`, as far as readiness goes
pub record IsMerge (old new n m : McuNode) : Type 0 where
  pub ready : IsMerged (λ n. n.status.ready) old new n m
  pub state : IsMerged (λ n. n.status.state) old new n m
  pub ota_validated : IsMerged (λ n. n.status.ota_validated) old new n m
  pub last_heartbeat : IsMerged (λ n. n.status.last_heartbeat) old new n m
  pub conditions : IsMerged (λ n. n.status.conditions) old new n m

stays :
    {A : Type 0} (field : McuNode → A) (old new n m : McuNode)
    → field new ≡ field old
    → IsMerged field old new n m
    → field m ≡ field n
stays field old new n m e (inl changed) = absurd (changed e)
stays field old new n m e (inr same) = same

merged-KeepsReadiness :
    (old new n m : McuNode) → KeepsReadiness old new → IsMerge old new n m → KeepsReadiness n m
merged-KeepsReadiness old new n m k is = record {
  same_ready = stays (λ n. n.status.ready) old new n m k.same_ready is.ready;
  same_state = stays (λ n. n.status.state) old new n m k.same_state is.state;
  same_validated =
      stays (λ n. n.status.ota_validated) old new n m k.same_validated is.ota_validated;
  same_heartbeat =
      stays (λ n. n.status.last_heartbeat) old new n m k.same_heartbeat is.last_heartbeat;
  same_conditions = stays (λ n. n.status.conditions) old new n m k.same_conditions is.conditions;
}

module _ ⦃env : Env⦄ ⦃api : RetryApi⦄ where
  pub data Step : McuNode → McuNode → Type 0 where
    heard :
        (n m : McuNode) (s : Server) (r : IncomingRequest) (w : World)
        → Made (node_status_patched true n m) w.history (handle_heartbeat s r w).1.history
        → Step n m
    judged :
        (n m : McuNode) (r : McuNodeReconciler) (key : ObjectKey) (w : World)
        → Made (node_status_patched true n m) w.history (reconcile_node r key w).1.history
        → Step n m
    recorded :
        (n m old new : McuNode) (r : McuNodeReconciler) (key : ObjectKey) (w : World)
        → Made (node_status_patched false old new) w.history (reconcile_node r key w).1.history
        → IsMerge old new n m
        → Step n m
    described :
        (n m old new : McuNode) (lock : Bool) (r : McuDeploymentReconciler) (dep : McuDeployment)
        (w : World)
        → Made
            (node_status_patched lock old new)
            w.history
            (dispatch r dep dep.status.phase w).1.history
        → IsMerge old new n m
        → Step n m
    finalized :
        (n sent : McuNode) (r : McuNodeReconciler) (key : ObjectKey) (w : World)
        → Made (node_updated sent) w.history (reconcile_node r key w).1.history
        → Step n (record n { finalizers = sent.finalizers })

  pub data Reach (n : McuNode) : McuNode → Type 0 where
    here : Reach n n
    next : {m l : McuNode} → Reach n m → Step m l → Reach n l

  Step-IsSound : {n m : McuNode} → Step n m → IsSound n → IsSound m
  Step-IsSound (heard n m s r w made) sound =
      let is = Made-holds (handle_heartbeat-IsReport s r w) made in
      heard-IsSound is.heartbeat n m is.report
  Step-IsSound (judged n m r key w made) sound =
      let (expired, (is, e)) = Made-holds (reconcile_node-Writes r key w) made in
      subst (λ m. IsSound m) (sym e) (judged-IsSound n expired is sound)
  Step-IsSound (recorded n m old new r key w made merge) sound =
      kept-IsSound n m sound
        (merged-KeepsReadiness old new n m (Made-holds (reconcile_node-Writes r key w) made) merge)
  Step-IsSound (described n m old new lock r dep w made merge) sound =
      kept-IsSound n m sound
        (merged-KeepsReadiness old new n m (Made-holds ((dispatch-Follows r dep).at w) made) merge)
  Step-IsSound (finalized n sent r key w made) sound = kept-IsSound n _ sound (record {
    same_ready = refl;
    same_state = refl;
    same_validated = refl;
    same_heartbeat = refl;
    same_conditions = refl;
  })

  -- A node that was just created is sound, and stays sound under all status writes that runs of the
  -- heartbeat server and reconciliations of nodes and of deployments make, in whatever order the API
  -- server accepts them, those with the lock on the object that they replace, the others as merge
  -- patches on any, and under the updates of its finalizers. Sound means: where it is ready, its state is
  -- running, its image is validated and a heartbeat was received; its state is empty or one of the
  -- CRD's enumeration; and where its Ready condition is True, it is ready.
  pub Reach-IsSound : {n m : McuNode} → IsCreated n → Reach n m → IsSound m
  Reach-IsSound {n} is here = IsCreated-IsSound n is
  Reach-IsSound is (next r step) = Step-IsSound step (Reach-IsSound is r)
