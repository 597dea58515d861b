-- ===== src/Metrics/Race.antt =====
-- UpdateFromHeartbeat sets the gauges after it has left its locked section, so a RemoveNode of the
-- same node can run in between.
use embewi_core.Base.{◌≡◌, refl, ap, ◌∙◌, String, none, some, lookup, eq_refl}
use embewi_core.World.Call.{whole, heap_free_bytes}
use embewi_core.World.Action.{World, M, ◌>>◌}
use embewi_core.Metrics.{HeartbeatData, labels_of, track, set_gauges, remove_node}
use embewi_core.Metrics.Series.{GaugeApi, same_labels_refl, series, series-set_gauges}
use embewi_core.Metrics.Refines.{forget-tracks}
use embewi_core.Metrics.Heard.{set_gauges-prev_labels}

-- UpdateFromHeartbeat of one goroutine with RemoveNode of another between its two halves
abbrev pub removed_in_between : HeartbeatData → M (Unit {0})
unfolding track set_gauges remove_node
removed_in_between d = do track d; remove_node d.node_id; set_gauges d

remove_node-prev_labels :
    (id : String) (w : World) → lookup id (remove_node id w).1.prev_labels ≡ none
unfolding remove_node
remove_node-prev_labels id w =
    forget-tracks id id w (lookup id w.prev_labels) refl ∙ rw (eq_refl id) refl

remove_unknown :
    (id : String) (w : World) → lookup id w.prev_labels ≡ none → (remove_node id w).1 ≡ w
unfolding remove_node
remove_unknown id w e = rw (e) refl

module _ ⦃gauges : GaugeApi⦄ where
  -- If RemoveNode of a node runs between the locked section of UpdateFromHeartbeat for that node and
  -- its gauge updates, then afterwards the node's heap gauge is shown under the labels of the
  -- heartbeat with the value it reported, `prevLabels` has no entry of the node, and another RemoveNode
  -- of it changes nothing.
  pub removed_in_between-leaks :
      (d : HeartbeatData) (w : World)
      → let after = (removed_in_between d w).1 in
        (series after.history heap_free_bytes (labels_of d) ≡ some (whole d.heap_free))
        × ((lookup d.node_id after.prev_labels ≡ none) × ((remove_node d.node_id after).1 ≡ after))
  unfolding removed_in_between
  removed_in_between-leaks d w =
      let kept =
        ap (lookup d.node_id) (set_gauges-prev_labels d (remove_node d.node_id (track d w).1).1)
        ∙ remove_node-prev_labels d.node_id (track d w).1 in
      (
        series-set_gauges d (remove_node d.node_id (track d w).1).1 heap_free_bytes (labels_of d)
            ∙ rw (same_labels_refl (labels_of d)) refl,
        (kept, remove_unknown d.node_id (removed_in_between d w).1 kept),
      )
