-- ===== src/Mqtt/Reports.antt =====
-- What a reported status and a reported diagnostic do to the row of the device:
-- `handle_status_message` and `handle_diag_message` of web/mqtt_bridge/services.py.
use sensor_server.Prelude.{
  ℕ, String, ◌≡◌, refl, ◌∙◌, ap, Bool, not, ◌&&◌, Option, none, some, [], ◌∷◌, ◌++◌, ◌==◌,
  if◌then◌else◌,
}
use sensor_server.Value.{Json}
use sensor_server.Store.{Device, AlertLevel, clear, warning, error, DiagLevel}
use sensor_server.World.{
  World, Run, StatusLog, DiagLog, find_device, update_device, save, log_status, group_send,
}
use sensor_server.World.Tables.{find_device-update_self}
use sensor_server.Mqtt.Alert.{clear_alert, set_alert, announce, log_and_announce}
use sensor_server.Mqtt.HealthStatus.{
  status_message, reported_alert, copy_alert_and_last_seen, report_status,
}
use sensor_server.Mqtt.Diag.{level_eq}

-- The level, the message and the time of an alert.
abbrev pub alert_of : Device → AlertLevel × (String × Option ℕ)
alert_of d = (d.alert_level, (d.alert_message, d.alert_updated_at))

-- The row of the device says what was reported, and the device is seen.
pub record IsReported (now : ℕ) (id : String) (alert : AlertLevel × (String × Option ℕ)) (w : World)
    : Type 0 where
  pub row : Device
  pub found : find_device id w.devices ≡ some row
  pub says : alert_of row ≡ alert
  pub seen_now : row.last_seen ≡ some now

abbrev pub status_entry : ℕ → Device → AlertLevel → String → StatusLog
status_entry now d level message = record {
  time = now;
  device = d.device_id;
  alert_level = level;
  alert_message = message;
}

-- What a status report of a level and a message value stands for: nothing beside `clear`, else the
-- message (the old one, if it is no text) and the time.
abbrev pub stated : ℕ → AlertLevel → Json → Device → AlertLevel × (String × Option ℕ)
stated now clear message d = (clear, ("", none))
stated now level message d = (level, (status_message message d, some now))

module _ (now : ℕ) (r : Run) where
  -- What a diagnostic stands for: `ok` and `info` clear the alert.
  abbrev pub diagnosed : DiagLevel → String → AlertLevel × (String × Option ℕ)
  diagnosed DiagLevel.ok message = (clear, ("", none))
  diagnosed DiagLevel.info message = (clear, ("", none))
  diagnosed DiagLevel.warning message = (warning, (message, some now))
  diagnosed DiagLevel.error message = (error, (message, some now))

  -- Does the new alert differ from the old one in its level or its message?
  abbrev pub differs : AlertLevel × (String × Option ℕ) → Bool
  differs a = not (level_eq r.device.alert_level a.0 && (r.device.alert_message == a.1.0))

  -- What a snapshot makes of the state: it is kept, the row says what it stands for, and the alert
  -- log has one more entry just where the alert differs.
  pub record IsDiagnosed (s : DiagLog) (alert : AlertLevel × (String × Option ℕ)) (w : World)
      : Type 0 where
    pub kept : w.diag_logs ≡ r.world.diag_logs ++ s ∷ []
    pub reported : IsReported now r.device.device_id alert w
    pub logged : w.status_logs ≡ (
        if differs alert
        then r.world.status_logs ++ status_entry now r.device alert.0 alert.1.0 ∷ []
        else r.world.status_logs)

module _ (now : ℕ) (r : Run)
    (h : find_device r.device.device_id r.world.devices ≡ some r.device) where
  -- A world whose device rows are those behind a save of the alert and the time.
  saved-IsReported :
      (d : Device) (w : World)
      → w.devices
        ≡ update_device r.device.device_id (λ row. copy_alert_and_last_seen d row) r.world.devices
      → d.last_seen ≡ some now
      → IsReported now r.device.device_id (alert_of d) w
  saved-IsReported d w same seen = record {
    row = copy_alert_and_last_seen d r.device;
    found =
        ap (λ ds. find_device r.device.device_id ds) same
        ∙ find_device-update_self r.device.device_id (λ row. copy_alert_and_last_seen d row)
            (λ row. refl) r.world.devices r.device h;
    says = refl;
    seen_now = seen;
  }

  -- A status report of a known device leaves its row with just that alert, marks it as seen, and adds
  -- one entry to the alert log.
  pub report_status-IsReported :
      (level : AlertLevel) (message : Json)
      → IsReported now r.device.device_id
          (stated now level message r.device)
          (report_status now level message r)
        × ((report_status now level message r).status_logs
            ≡ r.world.status_logs
              ++ status_entry now r.device level (stated now level message r.device).1.0 ∷ [])
  unfolding report_status reported_alert save log_and_announce log_status announce group_send
  report_status-IsReported clear message =
      (saved-IsReported (record (clear_alert r.device) { last_seen = some now }) _ refl refl, refl)
  report_status-IsReported warning message = (
    saved-IsReported
        (record (set_alert warning (status_message message r.device) (some now) r.device) {
          last_seen = some now;
        })
        _ refl refl,
    refl,
  )
  report_status-IsReported error message = (
    saved-IsReported
        (record (set_alert error (status_message message r.device) (some now) r.device) {
          last_seen = some now;
        })
        _ refl refl,
    refl,
  )
