-- ===== src/Devices/Rename.antt =====
-- `device_rename_view`, `_rename_device` and `_merge_devices` of web/devices/views.py. The refresh of
-- the continuous aggregates is outside the model.
use sensor_server.Prelude.{
  ℕ, String, Bool, false, not, ◌&&◌, Option, none, some, List, [], ◌∷◌, ◌++◌, ltb, ◌==◌, any,
  select, max, if◌then◌else◌,
}
use sensor_server.Text.{safe_identifier_re, is_empty}
use sensor_server.Store.{Device, new_device}
use sensor_server.World.{
  World, CommandLog, StatusLog, SensorReading, find_device, update_device, update_where,
}

-- .filter(device_id=old).update(device_id=new), and the same for the foreign keys
unfoldable pub move_readings : String → String → List SensorReading → List SensorReading
unfolding update_where
move_readings old new rows =
    update_where (λ s. s.device_id == old) (λ s. record s { device_id = new }) rows

unfoldable pub move_status_logs : String → String → List StatusLog → List StatusLog
unfolding update_where
move_status_logs old new rows =
    update_where (λ s. s.device == old) (λ s. record s { device = new }) rows

unfoldable pub move_commands : String → String → List CommandLog → List CommandLog
unfolding update_where
move_commands old new rows =
    update_where (λ c. c.device == old) (λ c. record c { device = new }) rows

-- device.delete(): the rows that refer to the device go with it; readings do not refer to it
unfoldable pub delete_device : String → World → World
unfolding select
delete_device id w = record w {
  devices = select (λ d. not (d.device_id == id)) w.devices;
  commands = select (λ c. not (c.device == id)) w.commands;
  status_logs = select (λ s. not (s.device == id)) w.status_logs;
  diag_logs = select (λ s. not (s.device == id)) w.diag_logs;
}

-- The new row: `diag_capable` and `location_type` are not copied.
unfoldable pub renamed_device : String → Device → Device
unfolding new_device
renamed_device new_id d = record d {
  device_id = new_id;
  diag_capable = (new_device new_id d.device_type).diag_capable;
  location_type = (new_device new_id d.device_type).location_type;
}

-- _rename_device
unfoldable pub rename_device : Device → String → World → World
unfolding move_readings renamed_device move_status_logs move_commands delete_device
rename_device d new_id w = delete_device d.device_id (record w {
  readings = move_readings d.device_id new_id w.readings;
  devices = w.devices ++ renamed_device new_id d ∷ [];
  status_logs = move_status_logs d.device_id new_id w.status_logs;
  commands = move_commands d.device_id new_id w.commands;
})

-- A series: the readings of a device for a metric.
unfoldable pub in_series : String → String → SensorReading → Bool
in_series id metric s = (s.device_id == id) && (s.metric == metric)

-- order_by("-time").values_list("time").first()
unfoldable pub latest_time : String → String → List SensorReading → Option ℕ
unfolding in_series
latest_time id metric [] = none
latest_time id metric (s ∷ rows) =
    let rest = latest_time id metric rows in
    if in_series id metric s
    then (elim rest [ none ↦ some s.time | some t ↦ some (max s.time t) ])
    else rest

abbrev pub is_later : Option ℕ → Option ℕ → Bool
is_later none t = false
is_later (some s) none = false
is_later (some s) (some t) = ltb t s

-- One shared metric: the device with the later reading keeps its series.
unfoldable pub merge_metric : String → String → String → List SensorReading → List SensorReading
unfolding latest_time in_series select update_where
merge_metric source target metric rows =
    if is_later (latest_time source metric rows) (latest_time target metric rows)
    then update_where (in_series source metric) (λ s. record s { device_id = target })
        (select (λ s. not (in_series target metric s)) rows)
    else select (λ s. not (in_series source metric s)) rows

-- The metrics of a device, each once.
unfoldable pub metrics_of : String → List SensorReading → List String
unfolding any
metrics_of id [] = []
metrics_of id (s ∷ rows) =
    let rest = metrics_of id rows in
    if (s.device_id == id) && not (any (λ m. m == s.metric) rest) then s.metric ∷ rest else rest

unfoldable pub merge_metrics :
    String → String → List String → List SensorReading → List SensorReading
unfolding merge_metric
merge_metrics source target [] rows = rows
merge_metrics source target (m ∷ ms) rows =
    merge_metrics source target ms (merge_metric source target m rows)

abbrev pub later_seen : Option ℕ → Option ℕ → Option ℕ
later_seen none t = t
later_seen (some s) none = some s
later_seen (some s) (some t) = if ltb t s then some s else some t

-- _merge_devices; the loop over the set of the shared metrics takes them in some order.
unfoldable pub merge_devices : Device → Device → World → World
unfolding metrics_of select any merge_metrics move_readings move_status_logs move_commands
    update_device delete_device
merge_devices source target w =
    let shared =
      select (λ m. any (λ n. n == m) (metrics_of target.device_id w.readings))
        (metrics_of source.device_id w.readings) in
    delete_device source.device_id (record w {
      readings =
          move_readings source.device_id target.device_id
            (merge_metrics source.device_id target.device_id shared w.readings);
      status_logs = move_status_logs source.device_id target.device_id w.status_logs;
      commands = move_commands source.device_id target.device_id w.commands;
      devices =
          update_device target.device_id
            (λ row. record row { last_seen = later_seen source.last_seen target.last_seen })
            w.devices;
    })

-- What the view answers.
pub data Renaming : Type 0 where
  empty_id unsafe_id unchanged renamed merged confirm_merge : Renaming

abbrev pub rename_to : Device → String → Bool → World → Option Device → Renaming × World
rename_to d new_id confirmed w none = (renamed, rename_device d new_id w)
rename_to d new_id confirmed w (some target) =
    if confirmed then (merged, merge_devices d target w) else (confirm_merge, w)

-- device_rename_view, for a POST with the stripped new id
unfoldable pub device_rename_view : Device → String → Bool → World → Renaming × World
unfolding safe_identifier_re rename_device merge_devices find_device
device_rename_view d new_id confirmed w =
    if is_empty new_id
    then (empty_id, w)
    else if not (safe_identifier_re new_id)
    then (unsafe_id, w)
    else if new_id == d.device_id
    then (unchanged, w)
    else rename_to d new_id confirmed w (find_device new_id w.devices)
