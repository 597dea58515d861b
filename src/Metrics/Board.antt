-- ===== src/Metrics/Board.antt =====
-- What /metrics shows of the nodes, as a map from nodes to labels and values, and the operations of
-- internal/metrics on that map; a run of the code and the same run on the map.
use embewi_core.Base.{◌≡◌, String, Option, none, some, List, [], ◌∷◌, ◌==◌, if◌then◌else◌, lookup}
use embewi_core.World.Call.{Labels, Gauge, GaugeValue}
use embewi_core.World.Action.{World}
use embewi_core.Metrics.{HeartbeatData, labels_of, update_from_heartbeat, remove_node}
use embewi_core.Metrics.Series.{GaugeApi, same_labels, series, reported, or_kept}

-- what is shown of one node
pub record Shown : Type 0 where
  pub labels : Labels
  pub value : Gauge → Option GaugeValue

-- the nodes that are shown
abbrev pub Board : Type 0
Board = String → Option Shown

-- values that a heartbeat does not report are kept while the labels stay the same
abbrev pub after_heartbeat : Option Shown → HeartbeatData → Shown
after_heartbeat none d = record { labels = labels_of d; value = λ g. reported g d }
after_heartbeat (some s) d = record {
  labels = labels_of d;
  value =
      λ g. or_kept (reported g d) (if same_labels s.labels (labels_of d) then s.value g else none);
}

pub data MetricsOp : Type 0 where
  heartbeat : HeartbeatData → MetricsOp
  removal : String → MetricsOp

abbrev pub replay_op : MetricsOp → Board → Board
replay_op (heartbeat d) f x = if d.node_id == x then some (after_heartbeat (f d.node_id) d) else f x
replay_op (removal id) f x = if id == x then none else f x

unfoldable pub replay : List MetricsOp → Board → Board
replay [] f = f
replay (op ∷ ops) f = replay ops (replay_op op f)

unfoldable pub run_op : MetricsOp → World → World
unfolding update_from_heartbeat remove_node
run_op (heartbeat d) w = (update_from_heartbeat d w).1
run_op (removal id) w = (remove_node id w).1

unfoldable pub run : List MetricsOp → World → World
run [] w = w
run (op ∷ ops) w = run ops (run_op op w)

abbrev pub shown_as : Option Shown → Gauge → Labels → Option GaugeValue
shown_as none g l = none
shown_as (some s) g l = if same_labels s.labels l then s.value g else none

abbrev pub labels_in : Option Shown → Option Labels
labels_in none = none
labels_in (some s) = some s.labels

abbrev pub IsKeyed : String → Option Shown → Type 0
IsKeyed id none = Unit
IsKeyed id (some s) = s.labels.node_id ≡ id

module _ ⦃gauges : GaugeApi⦄ where
  -- the gauges show the board, and `prevLabels` has its labels
  pub record Refines (w : World) (f : Board) : Type 0 where
    pub shows : (g : Gauge) (l : Labels) → series w.history g l ≡ shown_as (f l.node_id) g l
    pub tracks : (id : String) → lookup id w.prev_labels ≡ labels_in (f id)
    pub keyed : (id : String) → IsKeyed id (f id)
