-- ===== src/Mqtt/Sensor.antt =====
-- `handle_sensor_message` of web/mqtt_bridge/services.py, in the order of its steps.
use mathlib.Core.Option
use sensor_server.Prelude.{
  ℕ, ◌+◌, ◌*◌, String, Bool, true, false, not, ◌&&◌, ◌||◌, Option, none, some, List, [], ◌∷◌, ◌++◌,
  ltb, leb, ◌==◌, max, if◌then◌else◌,
}
use sensor_server.Text.{len, concat, safe_identifier_re}
use sensor_server.Value.{
  Json, Dict, Float, Python, get, Converted, converted, not_numeric, too_big, to_float, float_eq,
}
use sensor_server.Store.{
  Device, AlertLevel, second, capabilities_response_timeout, new_device, effective_name, is_online,
  supports_diag, BatteryStatus, battery_status,
}
use sensor_server.World.{
  World, Run, SensorReading, sensor_reading, timeout, find_device, save, log_status, group_send,
}
use sensor_server.Mqtt.Payload.{
  Outcome, handled, rejected, raised, not_approved, Decoded, decoded, refused, Handler, decode,
}
use sensor_server.Mqtt.Alert.{
  no_capabilities_alert, low_battery_alert, set_alert, clear_alert, copy_alert, log_and_announce,
}
use sensor_server.Mqtt.Requests.{
  alert_reassert_window, request_capabilities, request_commands, request_status, maybe_request_diag,
  check_ota_timeouts, resolve_capability_requests, flush_pending_commands, show, has_alert,
}

-- MAX_METRIC_NAME_LEN
abbrev pub max_metric_name_len : ℕ
max_metric_name_len = 64

-- METRIC_ALIASES
abbrev pub metric_aliases : Dict String
metric_aliases =
    ("temp", "temperature")
    ∷ ("humi", "humidity")
    ∷ ("press", "pressure")
    ∷ ("uv", "uv_index")
    ∷ ("batv", "bat_voltage")
    ∷ ("battery_v", "bat_voltage")
    ∷ ("bat", "bat_percent")
    ∷ ("battery_pct", "bat_percent")
    ∷ ("light_lux", "lux")
    ∷ ("wifi_rssi", "rssi")
    ∷ []

-- METRIC_ALIASES.get(raw_metric, raw_metric)
unfoldable pub canonical_metric : String → String
unfolding get
canonical_metric raw = elim (get raw metric_aliases) [ none ↦ raw | some metric ↦ metric ]

-- The device, and whether this message created it.
pub record Discovered : Type 0 where
  pub run : Run
  pub created : Bool

abbrev pub discovered : String → String → World → Option Device → Discovered
discovered device_type device_id w (some d) = record {
  run = record { device = d; world = w };
  created = false;
}
discovered device_type device_id w none =
    let d = new_device device_id device_type in
    record {
      run = record { device = d; world = record w { devices = w.devices ++ d ∷ [] } };
      created = true;
    }

-- Device.objects.get_or_create
unfoldable pub get_or_create : String → String → World → Discovered
unfolding find_device new_device
get_or_create device_type device_id w =
    discovered device_type device_id w (find_device device_id w.devices)

-- What the first `device.save` of the handler writes.
pub data UpdateFields : Type 0 where
  seen seen_and_time seen_and_alert : UpdateFields

unfoldable pub copy_fields : UpdateFields → Device → Device → Device
copy_fields seen d row = record row { last_seen = d.last_seen }
copy_fields seen_and_time d row = record row {
  last_seen = d.last_seen;
  alert_updated_at = d.alert_updated_at;
}
copy_fields seen_and_alert d row = record (copy_alert d row) { last_seen = d.last_seen }

pub record Reconciled : Type 0 where
  pub run : Run
  pub fields : UpdateFields

unfoldable pub cleared_with_event : ℕ → Run → Reconciled
unfolding log_and_announce
cleared_with_event now r =
    let d = clear_alert r.device in
    record {
      run = record { device = d; world = log_and_announce now d r.world };
      fields = seen_and_alert;
    }

abbrev pub reconcile_since : ℕ → Run → Option ℕ → Reconciled
reconcile_since now r none = record {
  run = record r { device = record r.device { alert_updated_at = some now } };
  fields = seen_and_time;
}
reconcile_since now r (some updated) =
    if ltb (updated + alert_reassert_window r.device * second) now
    then cleared_with_event now r
    else record { run = r; fields = seen }

-- The branch for an alert that the device reported.
unfoldable pub reconcile_reported : ℕ → Run → Reconciled
unfolding cleared_with_event alert_reassert_window
reconcile_reported now r = reconcile_since now r r.device.alert_updated_at

-- The alert reconciliation on incoming data.
unfoldable pub reconcile_alert : ℕ → Run → Reconciled
unfolding cleared_with_event reconcile_reported
reconcile_alert now r =
    if r.device.alert_message == no_capabilities_alert
    then cleared_with_event now r
    else if has_alert r.device
    then reconcile_reported now r
    else record { run = r; fields = seen }

-- From the arrival of the data to the first save.
unfoldable pub mark_seen : ℕ → Run → Run
unfolding reconcile_alert copy_fields save
mark_seen now r =
    let s = reconcile_alert now (record r { device = record r.device { last_seen = some now } }) in
    record s.run { world = save (copy_fields s.fields) s.run.device s.run.world }

-- On wake-up: flush, then ask for capabilities, commands and health.
unfoldable pub wake_up : ℕ → Run → Run
unfolding flush_pending_commands request_capabilities request_commands request_status supports_diag
wake_up now r =
    let r1 = record r { world = flush_pending_commands r.device r.world } in
    let r2 = request_commands (request_capabilities now none false r1) in
    if supports_diag r2.device then request_status r2 else r2

-- max(CAPABILITIES_RESPONSE_TIMEOUT, 3 * publish_interval), in seconds
unfoldable pub capabilities_timeout : Device → ℕ
capabilities_timeout d = max capabilities_response_timeout (3 * d.publish_interval)

abbrev pub copy_alert_and_request : Device → Device → Device
copy_alert_and_request d row = record (copy_alert d row) {
  capabilities_requested_at = d.capabilities_requested_at;
}

unfoldable pub capabilities_timed_out : ℕ → Run → Run
unfolding save log_status resolve_capability_requests capabilities_timeout show concat
capabilities_timed_out now r =
    let d = record (set_alert AlertLevel.error no_capabilities_alert (some now) r.device) {
      capabilities_requested_at = none;
    } in
    let w = log_status now d (save copy_alert_and_request d r.world) in
    record {
      device = d;
      world =
          resolve_capability_requests d timeout
            (concat "No response within " (concat (show (capabilities_timeout d)) "s")) now w;
    }

abbrev pub check_request : ℕ → Run → Option ℕ → Run
check_request now r none = r
check_request now r (some asked) =
    if ltb (asked + capabilities_timeout r.device * second) now
    then capabilities_timed_out now r
    else r

-- The timeout of an outstanding capabilities request.
unfoldable pub check_capabilities_timeout : ℕ → Run → Run
unfolding capabilities_timed_out capabilities_timeout
check_capabilities_timeout now r = check_request now r r.device.capabilities_requested_at

unfoldable pub valid_metric : String → Bool
unfolding safe_identifier_re
valid_metric raw = leb (len raw) max_metric_name_len && safe_identifier_re raw

-- The readings of one message; `none` if float() raised.
pub record Collected : Type 0 where
  pub readings : Option (List SensorReading)
  pub world : World

unfoldable pub add_reading : SensorReading → Collected → Collected
add_reading s c = record c { readings = Option.map (λ rest. s ∷ rest) c.readings }

-- One item of the payload: is its key valid, what is its value as a float, and the other items.
abbrev pub collect_item :
    ℕ
    → String
    → String
    → String
    → String
    → Bool
    → Converted
    → (World → Collected)
    → World
    → Collected
collect_item now device_type device_id name raw false x rest w = rest w
collect_item now device_type device_id name raw true not_numeric rest w = rest w
collect_item now device_type device_id name raw true too_big rest w = record {
  readings = none;
  world = w;
}
collect_item now device_type device_id name raw true (converted x) rest w =
    let metric = canonical_metric raw in
    add_reading (record { time = now; device_id = device_id; metric = metric; value = x })
      (rest (group_send (sensor_reading device_id device_type metric x now name) w))

-- The loop over the items of the payload: `device_type` and `device_id` are the topic's.
unfoldable pub collect : Python → ℕ → String → String → String → Dict Json → World → Collected
unfolding valid_metric canonical_metric to_float add_reading group_send
collect py now device_type device_id name [] w = record { readings = some []; world = w }
collect py now device_type device_id name ((raw, value) ∷ items) w =
    collect_item now device_type device_id name raw (valid_metric raw) (to_float py value)
      (λ v. collect py now device_type device_id name items v) w

-- `stored[metric]`: the last reading of the metric
unfoldable pub last_value : String → List SensorReading → Option Float
last_value metric [] = none
last_value metric (s ∷ readings) = elim (last_value metric readings) [
  | some x ↦ some x
  | none ↦ if s.metric == metric then some s.value else none
]

abbrev pub copy_battery_percent : Device → Device → Device
copy_battery_percent d row = record row { battery_percent = d.battery_percent }

unfoldable pub same_percent : Float → Option Float → Bool
unfolding float_eq
same_percent x none = false
same_percent x (some y) = float_eq x y

unfoldable pub set_battery : Float → Run → Run
unfolding same_percent save
set_battery percent r =
    if same_percent percent r.device.battery_percent
    then r
    else let d = record r.device { battery_percent = some percent } in
      record { device = d; world = save copy_battery_percent d r.world }

abbrev is_ok : Option BatteryStatus → Bool
is_ok none = false
is_ok (some s) = elim s [ BatteryStatus.ok ↦ true | _ ↦ false ]

abbrev is_warning : AlertLevel → Bool
is_warning AlertLevel.warning = true
is_warning _ = false

-- The test for a low-battery alert that the battery has outlived.
unfoldable pub battery_recovered : Device → Bool
unfolding battery_status
battery_recovered d =
    is_warning d.alert_level && (d.alert_message == low_battery_alert) && is_ok (battery_status d)

unfoldable pub reconcile_battery : ℕ → Run → World
unfolding battery_recovered save log_and_announce
reconcile_battery now r =
    let d = clear_alert r.device in
    if battery_recovered r.device
    then log_and_announce now d (save copy_alert d r.world)
    else r.world

unfoldable pub track_battery : ℕ → Option Float → Run → World
unfolding set_battery reconcile_battery
track_battery now none r = r.world
track_battery now (some percent) r = reconcile_battery now (set_battery percent r)

unfoldable pub store_readings : ℕ → Option (List SensorReading) → Run → Outcome × World
unfolding track_battery last_value
store_readings now none r = (raised, r.world)
store_readings now (some []) r = (handled, r.world)
store_readings now (some (s ∷ rest)) r = (
  handled,
  track_battery now (last_value "bat_percent" (s ∷ rest))
      (record r { world = record r.world { readings = r.world.readings ++ s ∷ rest } }),
)

-- The steps behind the save that depend on neither the approval nor the readings.
unfoldable pub after_seen : ℕ → Bool → Bool → Run → Run
unfolding check_ota_timeouts wake_up check_capabilities_timeout
after_seen now created was_online r =
    let r1 = record r { world = check_ota_timeouts now r.device r.world } in
    if created || not was_online then wake_up now r1 else check_capabilities_timeout now r1

unfoldable pub ingest : Python → ℕ → String → String → Dict Json → Run → Outcome × World
unfolding maybe_request_diag collect store_readings effective_name
ingest py now device_type device_id fields r =
    if r.device.is_approved
    then (let polled = maybe_request_diag now r in
        let c =
          collect py now device_type device_id (effective_name polled.device) fields polled.world in
        store_readings now c.readings (record polled { world = c.world }))
    else (rejected not_approved, r.world)

-- Does the insert of get_or_create raise? PostgreSQL refuses a text that is wider than its column.
abbrev pub is_refused : String → Option Device → Bool
is_refused device_type none = not (leb (len device_type) 64)
is_refused device_type (some d) = false

unfoldable pub sensor_found : Python → ℕ → String → String → Dict Json → World → Outcome × World
unfolding get_or_create is_online mark_seen after_seen ingest
sensor_found py now device_type device_id fields w =
    let found = get_or_create device_type device_id w in
    let was_online = is_online now found.run.device in
    ingest py now device_type device_id fields
      (after_seen now found.created was_online (mark_seen now found.run))

unfoldable pub sensor_body : Python → ℕ → String → String → Dict Json → World → Outcome × World
unfolding find_device sensor_found
sensor_body py now device_type device_id fields w =
    if is_refused device_type (find_device device_id w.devices)
    then (raised, w)
    else sensor_found py now device_type device_id fields w

abbrev pub sensor_decoded : Python → ℕ → String → String → Decoded → World → Outcome × World
sensor_decoded py now device_type device_id (refused o) w = (o, w)
sensor_decoded py now device_type device_id (decoded fields) w =
    sensor_body py now device_type device_id fields w

-- handle_sensor_message
unfoldable pub handle_sensor_message : Handler
unfolding decode sensor_body
handle_sensor_message py now device_type device_id payload w =
    sensor_decoded py now device_type device_id (decode py payload) w
