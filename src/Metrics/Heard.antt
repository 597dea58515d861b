-- ===== src/Metrics/Heard.antt =====
-- A heartbeat keeps the gauges showing the board.
use embewi_core.Base.{
  ◌≡◌, refl, sym, ap, ◌∙◌, String, Bool, true, false, not, ◌||◌, Option, none, some, ◌==◌,
  if◌then◌else◌, Bool-cases, inl, inr, arith, eq_iff, lookup,
}
use embewi_core.Base.MapLaws.{lookup-insert}
use embewi_core.World.Call.{Labels, Gauge, GaugeValue}
use embewi_core.World.Action.{World}
use embewi_core.Metrics.{
  HeartbeatData, labels_of, drop_old, track, set_gauges, update_from_heartbeat,
}
use embewi_core.Metrics.Series.{
  GaugeApi, same_labels, series, reported, or_kept, series-delete_labels, series-set_gauges,
}
use embewi_core.Metrics.Board.{
  Shown, Board, after_heartbeat, heartbeat, replay_op, run_op, shown_as, labels_in, IsKeyed,
  Refines,
}

or_kept-none : (r : Option GaugeValue) → or_kept r none ≡ r
or_kept-none none = refl
or_kept-none (some v) = refl

abbrev changed : Labels → Labels → Bool
changed new old = not (old.workload == new.workload) || not (old.chip == new.chip)

-- a heartbeat of a node that is not shown
first_shown :
    (b l : Labels) (r before : Option GaugeValue)
    → before ≡ (if b.node_id == l.node_id then none else before)
    → (if same_labels b l then or_kept r before else before)
      ≡ (if b.node_id == l.node_id then (if same_labels b l then r else none) else before)
first_shown b l r before k = ground (arith, eq_iff b.node_id l.node_id, or_kept-none r)

module _ ⦃gauges : GaugeApi⦄ where
  series-drop_old :
      (new old : Labels) (w : World) (g : Gauge) (l : Labels)
      → series (drop_old new (some old) w).1.history g l ≡ (
          if changed new old
          then (if same_labels old l then none else series w.history g l)
          else series w.history g l)
  series-drop_old new old w g l = elim (Bool-cases (changed new old)) [
    | inl e ↦ rw (e) (series-delete_labels old w g l)
    | inr e ↦ rw (e) refl
  ]

-- a heartbeat of a node that is shown with the labels `a`
next_shown :
    (a b l : Labels) (r v before : Option GaugeValue)
    → a.node_id ≡ b.node_id
    → before ≡ (if b.node_id == l.node_id then (if same_labels a l then v else none) else before)
    → (let left = if changed b a then (if same_labels a l then none else before) else before in
        if same_labels b l then or_kept r left else left)
      ≡ (if b.node_id == l.node_id
          then (if same_labels b l then or_kept r (if same_labels a b then v else none) else none)
          else before)
next_shown a b l r v before same_id k = ground (
  arith,
  eq_iff a.node_id l.node_id,
  eq_iff b.node_id l.node_id,
  eq_iff a.node_id b.node_id,
  eq_iff a.workload b.workload,
  eq_iff a.chip b.chip,
  eq_iff a.workload l.workload,
  eq_iff a.chip l.chip,
  eq_iff b.workload l.workload,
  eq_iff b.chip l.chip,
  or_kept-none r,
)

module _ ⦃gauges : GaugeApi⦄ where
  track-series :
      (d : HeartbeatData) (w : World) (g : Gauge) (l : Labels) (old : Option Labels)
      → lookup d.node_id w.prev_labels ≡ old
      → series (track d w).1.history g l ≡ series (drop_old (labels_of d) old w).1.history g l
  unfolding track
  track-series d w g l old e = rw (e) refl

  -- the board's view of a node, where the gauges of that node are looked up
  pub shown_before :
      (w : World) (f : Board) (id : String) (s : Option Shown) (g : Gauge) (l : Labels)
      → Refines w f
      → f id ≡ s
      → series w.history g l ≡ (if id == l.node_id then shown_as s g l else series w.history g l)
  shown_before w f id s g l r e = elim (Bool-cases (id == l.node_id)) [
    | inl same ↦ rw (same) (
        r.shows g l
        ∙ ap (λ k. shown_as (f k) g l) (sym ((eq_iff id l.node_id).0 same))
        ∙ ap (λ o. shown_as o g l) e)
    | inr other ↦ rw (other) refl
  ]

  heartbeat_shown :
      (d : HeartbeatData) (w : World) (f : Board) (s : Option Shown) (g : Gauge) (l : Labels)
      → Refines w f
      → f d.node_id ≡ s
      → IsKeyed d.node_id s
      → series (update_from_heartbeat d w).1.history g l ≡ (
          if d.node_id == l.node_id
          then shown_as (some (after_heartbeat s d)) g l
          else series w.history g l)
  unfolding update_from_heartbeat
  heartbeat_shown d w f none g l r e k =
      series-set_gauges d (track d w).1 g l
      ∙ rw (track-series d w g l none (r.tracks d.node_id ∙ ap labels_in e)) (
          first_shown (labels_of d) l (reported g d) (series w.history g l)
            (shown_before w f d.node_id none g l r e))
  heartbeat_shown d w f (some s) g l r e k =
      series-set_gauges d (track d w).1 g l
      ∙ rw
          (
            track-series d w g l (some s.labels) (r.tracks d.node_id ∙ ap labels_in e),
            series-drop_old (labels_of d) s.labels w g l,
          )
          (next_shown s.labels (labels_of d) l (reported g d) (s.value g) (series w.history g l) k
            (shown_before w f d.node_id (some s) g l r e))

pub board_shows :
    (b : Bool) (s : Shown) (o : Option Shown) (g : Gauge) (l : Labels) (v : Option GaugeValue)
    → v ≡ shown_as o g l
    → (if b then shown_as (some s) g l else v) ≡ shown_as (if b then some s else o) g l
board_shows true s o g l v e = refl
board_shows false s o g l v e = e

pub board_tracks :
    (b : Bool) (s o : Option Shown) (v : Option Labels)
    → v ≡ labels_in o
    → (if b then labels_in s else v) ≡ labels_in (if b then s else o)
board_tracks true s o v e = refl
board_tracks false s o v e = e

pub board-IsKeyed :
    (id : String) (b : Bool) (s o : Option Shown)
    → (b ≡ true → IsKeyed id s)
    → IsKeyed id o
    → IsKeyed id (if b then s else o)
board-IsKeyed id true s o t e = t refl
board-IsKeyed id false s o t e = e

after_heartbeat-labels :
    (s : Option Shown) (d : HeartbeatData) → (after_heartbeat s d).labels ≡ labels_of d
after_heartbeat-labels none d = refl
after_heartbeat-labels (some s) d = refl

pub set_gauges-prev_labels :
    (d : HeartbeatData) (w : World) → (set_gauges d w).1.prev_labels ≡ w.prev_labels
unfolding set_gauges
set_gauges-prev_labels d w = ground arith

module _ ⦃gauges : GaugeApi⦄ where
  pub heartbeat-Refines :
      (d : HeartbeatData) (w : World) (f : Board)
      → Refines w f
      → Refines (run_op (heartbeat d) w) (replay_op (heartbeat d) f)
  unfolding run_op update_from_heartbeat track
  heartbeat-Refines d w f r =
      let s = after_heartbeat (f d.node_id) d in
      record {
        shows = λ g l.
            heartbeat_shown d w f (f d.node_id) g l r refl (r.keyed d.node_id)
            ∙ board_shows (d.node_id == l.node_id) s (f l.node_id) g l (series w.history g l)
                (r.shows g l);
        tracks = λ id.
            ap (lookup id) (set_gauges-prev_labels d (track d w).1)
            ∙ lookup-insert d.node_id id (labels_of d) w.prev_labels
            ∙ rw (sym (ap some (after_heartbeat-labels (f d.node_id) d))) (
                board_tracks (d.node_id == id) (some s) (f id) (lookup id w.prev_labels)
                  (r.tracks id));
        keyed = λ id.
            board-IsKeyed id (d.node_id == id) (some s) (f id)
              (λ e.
                ap (λ l. l.node_id) (after_heartbeat-labels (f d.node_id) d)
                ∙ (eq_iff d.node_id id).0 e)
              (r.keyed id);
      }
