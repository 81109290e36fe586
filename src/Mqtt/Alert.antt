-- ===== src/Mqtt/Alert.antt =====
-- The alert that a device carries: how it is written, announced and cleared.
use sensor_server.Prelude.{ℕ, String, Option, none}
use sensor_server.Store.{Device, AlertLevel, clear, effective_name}
use sensor_server.World.{World, device_status, log_status, group_send}

-- NO_CAPABILITIES_ALERT
abbrev pub no_capabilities_alert : String
no_capabilities_alert = "no_capabilities_response"

-- LOW_BATTERY_ALERT
abbrev pub low_battery_alert : String
low_battery_alert = "low_battery"

abbrev pub set_alert : AlertLevel → String → Option ℕ → Device → Device
set_alert level message updated d = record d {
  alert_level = level;
  alert_message = message;
  alert_updated_at = updated;
}

abbrev pub clear_alert : Device → Device
clear_alert d = set_alert clear "" none d

-- update_fields=["alert_level", "alert_message", "alert_updated_at"]
abbrev pub copy_alert : Device → Device → Device
copy_alert d row = set_alert d.alert_level d.alert_message d.alert_updated_at row

-- The device_status event of the channel layer.
unfoldable pub announce : Device → World → World
unfolding group_send effective_name
announce d w =
    group_send (device_status d.device_id d.alert_level d.alert_message (effective_name d)) w

-- DeviceStatusLog.objects.create and the event, in that order
unfoldable pub log_and_announce : ℕ → Device → World → World
unfolding log_status announce
log_and_announce now d w = announce d (log_status now d w)
