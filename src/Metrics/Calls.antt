-- ===== src/Metrics/Calls.antt =====
-- The operations of internal/metrics call nothing but the gauges.
use embewi_core.Base.{
  Bool-cases, inl, inr, String, not, ◌||◌, Option, none, some, Assoc, lookup, ◌==◌,
}
use embewi_core.Base.Int.{pos, eqz}
use embewi_core.World.Call.{Call, Labels, Gauge, GaugeValue, gauge_set, gauge_deleted}
use embewi_core.World.Emits.{same, more, Emits, Emits-bind, Emits-if}
use embewi_core.Metrics.{
  HeartbeatData, no_sensor, delete_labels, labels_of, drop_old, track, set_gauges,
  update_from_heartbeat, forget, remove_node,
}

module _ (P : Call → Type 0) (deletes : (g : Gauge) (l : Labels) → P (gauge_deleted g l)) where
  delete_labels-Emits : (l : Labels) → Emits P (delete_labels l)
  unfolding delete_labels
  delete_labels-Emits l = record {
    at = λ w. more (deletes _ l) (
        more (deletes _ l) (
          more (deletes _ l) (
            more (deletes _ l) (
              more (deletes _ l)
                (more (deletes _ l) (more (deletes _ l) (more (deletes _ l) same)))))));
  }

  forget-Emits :
      (id : String) (prev : Assoc Labels) (o : Option Labels) → Emits P (forget id prev o)
  forget-Emits id prev none = record { at = λ w. same }
  forget-Emits id prev (some old) = record { at = λ w. (delete_labels-Emits old).at w }

  pub remove_node-Emits : (id : String) → Emits P (remove_node id)
  unfolding remove_node
  remove_node-Emits id = record {
    at = λ w. (forget-Emits id w.prev_labels (lookup id w.prev_labels)).at w;
  }

  drop_old-Emits : (l : Labels) (o : Option Labels) → Emits P (drop_old l o)
  drop_old-Emits l none = record { at = λ w. same }
  drop_old-Emits l (some old) =
      Emits-if (not (old.workload == l.workload) || not (old.chip == l.chip)) _ _
        (λ e. delete_labels-Emits old) (λ e. record { at = λ w. same })

  track-Emits : (d : HeartbeatData) → Emits P (track d)
  unfolding track
  track-Emits d = record {
    at = λ w. (drop_old-Emits (labels_of d) (lookup d.node_id w.prev_labels)).at w;
  }

  module _ (sets : (g : Gauge) (l : Labels) (v : GaugeValue) → P (gauge_set g l v)) where
    set_gauges-Emits : (d : HeartbeatData) → Emits P (set_gauges d)
    unfolding set_gauges
    set_gauges-Emits d = elim (Bool-cases (eqz d.temp_celsius no_sensor)) [
      | inl e ↦ elim (Bool-cases (eqz d.ts (pos 0))) [
        | inl f ↦
            rw (e, f)
              (record {
                at = λ w. more (sets _ _ _) (
                    more (sets _ _ _) (
                      more (sets _ _ _)
                        (more (sets _ _ _) (more (sets _ _ _) (more (sets _ _ _) same)))));
              })
        | inr f ↦
            rw (e, f)
              (record {
                at = λ w. more (sets _ _ _) (
                    more (sets _ _ _) (
                      more (sets _ _ _) (
                        more (sets _ _ _)
                          (more (sets _ _ _) (more (sets _ _ _) (more (sets _ _ _) same))))));
              })
      ]
      | inr e ↦ elim (Bool-cases (eqz d.ts (pos 0))) [
        | inl f ↦
            rw (e, f)
              (record {
                at = λ w. more (sets _ _ _) (
                    more (sets _ _ _) (
                      more (sets _ _ _) (
                        more (sets _ _ _)
                          (more (sets _ _ _) (more (sets _ _ _) (more (sets _ _ _) same))))));
              })
        | inr f ↦
            rw (e, f)
              (record {
                at = λ w. more (sets _ _ _) (
                    more (sets _ _ _) (
                      more (sets _ _ _) (
                        more (sets _ _ _) (
                          more (sets _ _ _)
                            (more (sets _ _ _) (more (sets _ _ _) (more (sets _ _ _) same)))))));
              })
      ]
    ]

    pub update_from_heartbeat-Emits : (d : HeartbeatData) → Emits P (update_from_heartbeat d)
    unfolding update_from_heartbeat
    update_from_heartbeat-Emits d = Emits-bind _ _ (track-Emits d) (λ _. set_gauges-Emits d)
