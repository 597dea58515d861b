-- ===== src/Metrics/Refines.antt =====
-- A run of the operations of internal/metrics, and the same run on the board.
use mathlib.Core.Path.{subst}
use embewi_core.Base.{
  ◌≡◌, refl, sym, ap, ◌∙◌, String, Bool, true, false, Option, none, some, List, [], ◌∷◌, ◌==◌,
  if◌then◌else◌, arith, eq_iff, lookup,
}
use embewi_core.Base.MapLaws.{lookup-erase}
use embewi_core.World.Call.{Labels, Gauge, GaugeValue}
use embewi_core.World.Action.{World}
use embewi_core.Metrics.{delete_labels, forget, remove_node}
use embewi_core.Metrics.Series.{GaugeApi, same_labels, series, series-delete_labels}
use embewi_core.Metrics.Board.{
  Shown, Board, MetricsOp, heartbeat, removal, replay_op, replay, run_op, run, shown_as, labels_in,
  IsKeyed, Refines,
}
use embewi_core.Metrics.Heard.{board_tracks, board-IsKeyed, shown_before, heartbeat-Refines}

deleted_shown :
    (old l : Labels) (v before : Option GaugeValue)
    → before
      ≡ (if old.node_id == l.node_id then (if same_labels old l then v else none) else before)
    → (if same_labels old l then none else before)
      ≡ (if old.node_id == l.node_id then none else before)
deleted_shown old l v before e = ground (arith, eq_iff old.node_id l.node_id)

forgotten_shows :
    (b : Bool) (o : Option Shown) (g : Gauge) (l : Labels) (v : Option GaugeValue)
    → (b ≡ false → v ≡ shown_as o g l)
    → (if b then none else v) ≡ shown_as (if b then none else o) g l
forgotten_shows true o g l v e = refl
forgotten_shows false o g l v e = e refl

module _ ⦃gauges : GaugeApi⦄ where
  forget-shows :
      (id : String) (w : World) (f : Board) (s : Option Shown) (g : Gauge) (l : Labels)
      → Refines w f
      → f id ≡ s
      → IsKeyed id s
      → series (forget id w.prev_labels (labels_in s) w).1.history g l
        ≡ (if id == l.node_id then none else series w.history g l)
  forget-shows id w f none g l r e k = shown_before w f id none g l r e
  forget-shows id w f (some s) g l r e k =
      series-delete_labels s.labels w g l
      ∙ (deleted_shown s.labels l (s.value g) (series w.history g l) (
            subst
              (λ i.
                series w.history g l
                ≡ (if i == l.node_id then shown_as (some s) g l else series w.history g l))
              (sym k) (shown_before w f id (some s) g l r e))
          ∙ ap (λ i. if i == l.node_id then none else series w.history g l) k)

pub forget-tracks :
    (id other : String) (w : World) (s : Option Labels)
    → lookup id w.prev_labels ≡ s
    → lookup other (forget id w.prev_labels s w).1.prev_labels
      ≡ (if id == other then none else lookup other w.prev_labels)
unfolding delete_labels
forget-tracks id other w none e = ground (arith, eq_iff id other)
forget-tracks id other w (some old) e = lookup-erase id other w.prev_labels

module _ ⦃gauges : GaugeApi⦄ where
  pub removal-Refines :
      (id : String) (w : World) (f : Board)
      → Refines w f
      → Refines (run_op (removal id) w) (replay_op (removal id) f)
  unfolding run_op remove_node
  removal-Refines id w f r = record {
    shows = λ g l.
        ap (λ o. series (forget id w.prev_labels o w).1.history g l) (r.tracks id)
        ∙ forget-shows id w f (f id) g l r refl (r.keyed id)
        ∙ forgotten_shows (id == l.node_id) (f l.node_id) g l (series w.history g l)
            (λ _. r.shows g l);
    tracks = λ other.
        forget-tracks id other w (lookup id w.prev_labels) refl
        ∙ board_tracks (id == other) none (f other) (lookup other w.prev_labels) (r.tracks other);
    keyed = λ other. board-IsKeyed other (id == other) none (f other) (λ _. tt) (r.keyed other);
  }

  op-Refines :
      (op : MetricsOp) (w : World) (f : Board)
      → Refines w f
      → Refines (run_op op w) (replay_op op f)
  op-Refines (heartbeat d) w f r = heartbeat-Refines d w f r
  op-Refines (removal id) w f r = removal-Refines id w f r

  -- If the gauges show the board `f` and `prevLabels` holds its labels, then after any sequence of
  -- UpdateFromHeartbeat and RemoveNode calls, each of which runs to its end before the next starts, the
  -- gauges show what the same sequence makes of `f`: of each node at most one set of labels, that of
  -- its last heartbeat, with what that heartbeat reported and, while its labels stay the same, what
  -- earlier ones reported; of a removed node and of a workload or chip that it left, nothing.
  pub run-Refines :
      (ops : List MetricsOp) (w : World) (f : Board)
      → Refines w f
      → Refines (run ops w) (replay ops f)
  unfolding run replay
  run-Refines [] w f r = r
  run-Refines (op ∷ ops) w f r =
      run-Refines ops (run_op op w) (replay_op op f) (op-Refines op w f r)
