-- ===== src/Metrics/Series.antt =====
-- What the gauges show: the series that a scrape of /metrics finds after a history of calls, and how
-- the operations of internal/metrics change it.
use embewi_core.Base.{
  ◌≡◌, Bool, true, false, ◌&&◌, Option, none, some, ◌∷◌, ◌==◌, if◌then◌else◌, arith, eq_iff,
  eq_refl,
}
use embewi_core.Base.Int.{pos, eqz}
use embewi_core.World.Call.{
  Call, History, Labels, Gauge, GaugeValue, whole, thousandths, gauge_set, gauge_deleted,
  heap_free_bytes, wifi_rssi_dbm, uptime_seconds, temperature_celsius, task_stack_hwm_bytes,
  last_heartbeat_timestamp, config_generation, ota_validated,
}
use embewi_core.World.Action.{World, pure, set_gauge}
use embewi_core.Metrics.{HeartbeatData, no_sensor, delete_labels, labels_of, one_if, set_gauges}

abbrev pub same_gauge : Gauge → Gauge → Bool
same_gauge heap_free_bytes heap_free_bytes = true
same_gauge wifi_rssi_dbm wifi_rssi_dbm = true
same_gauge uptime_seconds uptime_seconds = true
same_gauge temperature_celsius temperature_celsius = true
same_gauge task_stack_hwm_bytes task_stack_hwm_bytes = true
same_gauge last_heartbeat_timestamp last_heartbeat_timestamp = true
same_gauge config_generation config_generation = true
same_gauge ota_validated ota_validated = true
same_gauge _ _ = false

abbrev pub same_labels : Labels → Labels → Bool
same_labels a b = a.node_id == b.node_id && (a.workload == b.workload && a.chip == b.chip)

abbrev pub is_gauge_call : Call → Bool
is_gauge_call (gauge_set g l v) = true
is_gauge_call (gauge_deleted g l) = true
is_gauge_call _ = false

-- client_golang's GaugeVecs, which are third-party code and so an interface: what a scrape of /metrics
-- finds after a history of calls. A GaugeVec keeps the value that was set last under each set of labels,
-- until it is deleted.
pub record GaugeApi : Type 0 where
  pub series : History → Gauge → Labels → Option GaugeValue
  pub series-set :
      (h : History) (g' : Gauge) (l' : Labels) (v : GaugeValue) (g : Gauge) (l : Labels)
      → series (gauge_set g' l' v ∷ h) g l
        ≡ (if same_gauge g' g && same_labels l' l then some v else series h g l)
  pub series-deleted :
      (h : History) (g' : Gauge) (l' : Labels) (g : Gauge) (l : Labels)
      → series (gauge_deleted g' l' ∷ h) g l
        ≡ (if same_gauge g' g && same_labels l' l then none else series h g l)
  -- other calls leave the gauges alone
  pub series-other :
      (c : Call) (h : History) (g : Gauge) (l : Labels)
      → is_gauge_call c ≡ false
      → series (c ∷ h) g l ≡ series h g l

abbrev pub series : ⦃gauges : GaugeApi⦄ → History → Gauge → Labels → Option GaugeValue
series ⦃gauges⦄ = gauges.series

-- what a heartbeat sets in a gauge; `none` where it leaves the gauge alone
abbrev pub reported : Gauge → HeartbeatData → Option GaugeValue
reported heap_free_bytes d = some (whole d.heap_free)
reported wifi_rssi_dbm d = some (whole d.rssi)
reported uptime_seconds d = some (thousandths d.uptime_ms)
reported temperature_celsius d =
    if eqz d.temp_celsius no_sensor then none else some (thousandths d.temp_celsius)
reported task_stack_hwm_bytes d = some (whole d.task_hwm_min)
reported last_heartbeat_timestamp d = if eqz d.ts (pos 0) then none else some (whole d.ts)
reported config_generation d = some (whole d.config_generation)
reported ota_validated d = some (one_if d.ota_validated)

abbrev pub or_kept : Option GaugeValue → Option GaugeValue → Option GaugeValue
or_kept none before = before
or_kept (some v) before = some v

pub same_labels-eq : (a b : Labels) → same_labels a b ≡ true → a ≡ b
same_labels-eq a b h =
    ground (arith, eq_iff a.node_id b.node_id, eq_iff a.workload b.workload, eq_iff a.chip b.chip)

pub same_labels_refl : (a : Labels) → same_labels a a ≡ true
same_labels_refl a = ground (arith, eq_refl a.node_id, eq_refl a.workload, eq_refl a.chip)

module _ ⦃gauges : GaugeApi⦄ where
  pub series-delete_labels :
      (old : Labels) (w : World) (g : Gauge) (l : Labels)
      → series (delete_labels old w).1.history g l
        ≡ (if same_labels old l then none else series w.history g l)
  unfolding delete_labels
  series-delete_labels old w heap_free_bytes l = simp gauges.series-deleted
  series-delete_labels old w wifi_rssi_dbm l = simp gauges.series-deleted
  series-delete_labels old w uptime_seconds l = simp gauges.series-deleted
  series-delete_labels old w temperature_celsius l = simp gauges.series-deleted
  series-delete_labels old w task_stack_hwm_bytes l = simp gauges.series-deleted
  series-delete_labels old w last_heartbeat_timestamp l = simp gauges.series-deleted
  series-delete_labels old w config_generation l = simp gauges.series-deleted
  series-delete_labels old w ota_validated l = simp gauges.series-deleted

  -- a value that is set unless a test holds
  series-set_unless :
      (t : Bool) (g' : Gauge) (l' : Labels) (v : GaugeValue) (w : World) (g : Gauge) (l : Labels)
      → series ((if t then pure tt else set_gauge g' l' v) w).1.history g l ≡ (
          if same_gauge g' g && same_labels l' l
          then or_kept (if t then none else some v) (series w.history g l)
          else series w.history g l)
  series-set_unless true g' l' v w g l = ground arith
  series-set_unless false g' l' v w g l = gauges.series-set w.history g' l' v g l

  pub series-set_gauges :
      (d : HeartbeatData) (w : World) (g : Gauge) (l : Labels)
      → series (set_gauges d w).1.history g l ≡ (
          if same_labels (labels_of d) l
          then or_kept (reported g d) (series w.history g l)
          else series w.history g l)
  unfolding set_gauges
  series-set_gauges d w heap_free_bytes l = simp (gauges.series-set, series-set_unless)
  series-set_gauges d w wifi_rssi_dbm l = simp (gauges.series-set, series-set_unless)
  series-set_gauges d w uptime_seconds l = simp (gauges.series-set, series-set_unless)
  series-set_gauges d w temperature_celsius l = simp (gauges.series-set, series-set_unless)
  series-set_gauges d w task_stack_hwm_bytes l = simp (gauges.series-set, series-set_unless)
  series-set_gauges d w last_heartbeat_timestamp l = simp (gauges.series-set, series-set_unless)
  series-set_gauges d w config_generation l = simp (gauges.series-set, series-set_unless)
  series-set_gauges d w ota_validated l = simp (gauges.series-set, series-set_unless)
