-- ===== src/Mqtt/HealthStatus.antt =====
-- `handle_status_message` of web/mqtt_bridge/services.py.
use sensor_server.Prelude.{ℕ, String, ◌||◌, Option, none, some, ◌==◌, if◌then◌else◌}
use sensor_server.Text.{prefix}
use sensor_server.Value.{Json, Dict, get_or}
use sensor_server.Store.{Device, AlertLevel, clear}
use sensor_server.World.{World, Run, save}
use sensor_server.Mqtt.Payload.{
  Outcome, handled, rejected, invalid_level, Handler, decode, with_device,
}
use sensor_server.Mqtt.Alert.{set_alert, clear_alert, copy_alert, log_and_announce}

-- `level not in ("", "ok", "warning", "error")` is `none`; "" and "ok" clear.
unfoldable pub status_level : Json → Option AlertLevel
status_level (Json.str level) =
    if (level == "") || (level == "ok")
    then some clear
    else if level == "warning"
    then some AlertLevel.warning
    else if level == "error"
    then some AlertLevel.error
    else none
status_level _ = none

-- A message that is no string leaves the old one.
unfoldable pub status_message : Json → Device → String
unfolding prefix
status_message (Json.str message) d = prefix 256 message
status_message _ d = d.alert_message

unfoldable pub reported_alert : ℕ → AlertLevel → Json → Device → Device
unfolding status_message
reported_alert now clear message d = clear_alert d
reported_alert now level message d = set_alert level (status_message message d) (some now) d

abbrev pub copy_alert_and_last_seen : Device → Device → Device
copy_alert_and_last_seen d row = record (copy_alert d row) { last_seen = d.last_seen }

unfoldable pub report_status : ℕ → AlertLevel → Json → Run → World
unfolding reported_alert save log_and_announce
report_status now level message r =
    let d = record (reported_alert now level message r.device) { last_seen = some now } in
    log_and_announce now d (save copy_alert_and_last_seen d r.world)

abbrev pub status_at : ℕ → Dict Json → Run → Option AlertLevel → Outcome × World
status_at now fields r none = (rejected invalid_level, r.world)
status_at now fields r (some level) =
    (handled, report_status now level (get_or "message" (Json.str "") fields) r)

unfoldable pub status_body : ℕ → Dict Json → Run → Outcome × World
unfolding status_level report_status get_or
status_body now fields r =
    status_at now fields r (status_level (get_or "level" (Json.str "") fields))

-- handle_status_message
unfoldable pub handle_status_message : Handler
unfolding decode with_device status_body
handle_status_message py now device_type device_id payload w =
    with_device (decode py payload) device_id (status_body now) w
