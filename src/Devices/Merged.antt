-- ===== src/Devices/Merged.antt =====
-- What `_merge_devices` of web/devices/views.py does to the series of a shared metric, and to other
-- devices.
use sensor_server.Prelude.{
  String, ◌≡◌, ◌≢◌, refl, ◌∙◌, Bool, true, false, not, List, [], ◌∷◌, arith, ◌==◌, eq_iff, select,
  map, if◌then◌else◌, any,
}
use sensor_server.Store.{Device}
use sensor_server.World.{World, CommandLog, StatusLog, DiagLog, SensorReading, update_where}
use sensor_server.World.Tables.{find_device-update_ne}
use sensor_server.Mqtt.Effects.Frame.{SameFor}
use sensor_server.Devices.Rename.{
  in_series, latest_time, is_later, merge_metric, merge_metrics, metrics_of, later_seen,
  move_readings, move_status_logs, move_commands, delete_device, merge_devices,
}
use sensor_server.Devices.Renamed.{moved-other, deleted-other, find_device-deleted_other}

module _ (source target : String) (apart : target ≢ source) where
  -- The readings of a series, filed under the target.
  abbrev pub filed : SensorReading → SensorReading
  filed s = record s { device_id = target }

  -- A row of another metric.
  abbrev pub is_elsewhere : String → SensorReading → Bool
  is_elsewhere metric s = not (s.metric == metric)

  -- One metric of a merge, settled: the target has one of the two series, whole, and the source none.
  pub record IsSettled (metric : String) (rows after : List SensorReading) : Type 0 where
    pub kept : select (in_series target metric) after ≡ (
        if is_later (latest_time source metric rows) (latest_time target metric rows)
        then map filed (select (in_series source metric) rows)
        else select (in_series target metric) rows)
    pub emptied : select (in_series source metric) after ≡ []
    pub elsewhere : select (is_elsewhere metric) after ≡ select (is_elsewhere metric) rows

  module _ (j : String) (ne : j ≢ source) (nf : j ≢ target) where
    other_kept :
        (id metric : String) (rows : List SensorReading)
        → j ≢ id
        → select (λ s. s.device_id == j) (select (λ s. not (in_series id metric s)) rows)
          ≡ select (λ s. s.device_id == j) rows
    unfolding select in_series
    other_kept id metric [] off = refl
    other_kept id metric (s ∷ rows) off =
        ground (arith, eq_iff s.device_id id, eq_iff s.device_id j, other_kept id metric rows off)

    other_filed :
        (metric : String) (rows : List SensorReading)
        → select (λ s. s.device_id == j) (update_where (in_series source metric) filed rows)
          ≡ select (λ s. s.device_id == j) rows
    unfolding select update_where in_series
    other_filed metric [] = refl
    other_filed metric (s ∷ rows) = ground (
      arith,
      eq_iff s.device_id source,
      eq_iff s.device_id j,
      eq_iff target j,
      other_filed metric rows,
    )

    merge_metric-other :
        (metric : String) (rows : List SensorReading)
        → select (λ s. s.device_id == j) (merge_metric source target metric rows)
          ≡ select (λ s. s.device_id == j) rows
    unfolding merge_metric
    merge_metric-other metric rows =
        by_winner (is_later (latest_time source metric rows) (latest_time target metric rows))
      where
        by_winner :
            (b : Bool)
            → select
                (λ s. s.device_id == j)
                (if b
                  then update_where
                      (in_series source metric)
                      filed
                      (select (λ s. not (in_series target metric s)) rows)
                  else select (λ s. not (in_series source metric s)) rows)
              ≡ select (λ s. s.device_id == j) rows
        by_winner true =
            other_filed metric (select (λ s. not (in_series target metric s)) rows)
            ∙ other_kept target metric rows nf
        by_winner false = other_kept source metric rows ne

    merge_metrics-other :
        (ms : List String) (rows : List SensorReading)
        → select (λ s. s.device_id == j) (merge_metrics source target ms rows)
          ≡ select (λ s. s.device_id == j) rows
    unfolding merge_metrics
    merge_metrics-other [] rows = refl
    merge_metrics-other (m ∷ ms) rows =
        merge_metrics-other ms (merge_metric source target m rows) ∙ merge_metric-other m rows

-- A merge of two different devices changes nothing of a device that is neither the source nor the target.
pub merge_devices-SameFor :
    (source target : Device) (j : String) (w : World)
    → target.device_id ≢ source.device_id
    → j ≢ source.device_id
    → j ≢ target.device_id
    → SameFor j w (merge_devices source target w)
unfolding merge_devices delete_device move_readings move_commands move_status_logs
merge_devices-SameFor source target j w apart ne nf =
    let old = source.device_id in
    let new = target.device_id in
    record {
      device =
          find_device-deleted_other old j _ ne
          ∙ find_device-update_ne new
              (λ row. record row { last_seen = later_seen source.last_seen target.last_seen })
              (λ row. refl) j w.devices nf;
      commands =
          deleted-other (λ (c : CommandLog). c.device) old j _ ne
          ∙ moved-other (λ (c : CommandLog). c.device) old new (λ c. record c { device = new })
              (λ c. refl) apart j w.commands ne nf;
      status_logs =
          deleted-other (λ (s : StatusLog). s.device) old j _ ne
          ∙ moved-other (λ (s : StatusLog). s.device) old new (λ s. record s { device = new })
              (λ s. refl) apart j w.status_logs ne nf;
      diag_logs = deleted-other (λ (s : DiagLog). s.device) old j w.diag_logs ne;
      readings =
          moved-other (λ (s : SensorReading). s.device_id) old new
            (λ s. record s { device_id = new }) (λ s. refl) apart j _ ne nf
          ∙ merge_metrics-other old new apart j ne nf
              (select (λ m. any (λ n. n == m) (metrics_of new w.readings))
                (metrics_of old w.readings))
              w.readings;
    }
