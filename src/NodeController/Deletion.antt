-- ===== src/NodeController/Deletion.antt =====
-- A node that is deleted.
use embewi_core.Base.{◌≡◌, ◌∙◌, refl, true, ◌∷◌}
use embewi_core.Api.Node.{McuNode}
use embewi_core.Metrics.{remove_node}
use embewi_core.Metrics.Series.{GaugeApi}
use embewi_core.Metrics.Board.{Board, removal, replay_op, run_op, Refines}
use embewi_core.Metrics.Refines.{removal-Refines}
use embewi_core.NodeController.Secrets.{McuNodeReconciler}
use embewi_core.NodeController.Reconcile.{
  node_metrics_finalizer, release, reconcile_deletion, reconcile_present,
}
use embewi_core.World.Call.{node_updated}
use embewi_core.World.Env.{Env}
use embewi_core.World.Action.{World}

module _ ⦃env : Env⦄ where
  -- the object without the finalizer of the metrics
  abbrev pub released : McuNode → McuNode
  released node = record node {
    finalizers = env.remove_finalizer node.finalizers node_metrics_finalizer;
  }

module _ ⦃env : Env⦄ ⦃gauges : GaugeApi⦄ where
  -- If the gauges show a board, then the reconciliation of a node that is being deleted and has the
  -- finalizer leaves them showing that board without the node's id, and its last call is the update
  -- that drops the finalizer, before which no other update is made: the object cannot go before its
  -- series have gone.
  pub reconcile_present-deleted :
      (r : McuNodeReconciler) (node : McuNode) (w : World) (f : Board)
      → node.being_deleted ≡ true
      → env.contains_finalizer node.finalizers node_metrics_finalizer ≡ true
      → Refines w f
      → let w' = (reconcile_present r node w).1 in
        Refines w' (replay_op (removal node.spec.node_id) f)
        × (w'.history ≡ node_updated (released node) ∷ (remove_node node.spec.node_id w).1.history)
  unfolding reconcile_present reconcile_deletion release run_op
  reconcile_present-deleted r node w f deleted has refines =
      let after = removal-Refines node.spec.node_id w f refines in
      rw (deleted, has)
        (
          record {
            shows = λ g l. gauges.series-other _ _ g l refl ∙ after.shows g l;
            tracks = after.tracks;
            keyed = after.keyed;
          },
          refl,
        )
