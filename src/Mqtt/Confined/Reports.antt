-- ===== src/Mqtt/Confined/Reports.antt =====
-- The status, diagnostics, command list and calibration handlers are confined to their device.
use sensor_server.Prelude.{
  ℕ, zero, suc, ◌≤◌, String, ◌≡◌, refl, ◌∙◌, Bool, List, ◌++◌, [], ◌∷◌, Option, none, some, arith,
  if◌then◌else◌,
}
use sensor_server.Text.{len, prefix}
use sensor_server.Value.{Json, Dict, Python, get_or}
use sensor_server.Store.{Device, AlertLevel, clear, DiagLevel}
use sensor_server.World.{World, Run, DiagLog, find_device, save}
use sensor_server.Mqtt.Payload.{Outcome, Decoded, decode, decoded, refused, with_device, with_row}
use sensor_server.Mqtt.Alert.{set_alert, log_and_announce}
use sensor_server.Mqtt.HealthStatus.{
  status_message, reported_alert, copy_alert_and_last_seen, report_status, status_at, status_body,
  handle_status_message,
}
use sensor_server.Mqtt.Diag.{
  snapshot, diag_message, diag_alert, alert_changed, report_diag, diag_parsed, diag_at, diag_body,
  handle_diag_message,
}
use sensor_server.Mqtt.Diag.Snapshot.{Holds, IsSnapshot, snapshot-IsSnapshot}
use sensor_server.Mqtt.CommandList.{
  copy_capabilities_and_last_seen, command_names, params_of, commands_body, handle_commands_message,
}
use sensor_server.Mqtt.Calibration.{
  copy_calibration_and_last_seen, store_mirror, calibration_body, handle_calibration_message,
}
use sensor_server.Mqtt.Effects.{Effects, done, logs_diag, IsValid}
use sensor_server.Mqtt.Effects.Closure.{one, and_then, Effects-if}
use sensor_server.Mqtt.Confined.{
  Found, Quiet, Reaches, Found-device_id, save-Reaches, log_and_announce-Quiet,
}
use sensor_server.Mqtt.Confined.Arrival.{set_alert-IsValid, clear_alert-IsValid}

pub len-prefix-le : (n : ℕ) (s : String) → len (prefix n s) ≤ n
unfolding prefix
len-prefix-le zero s = omega arith
len-prefix-le (suc n) String.[] = omega arith
len-prefix-le (suc n) (String.◌∷◌ c s) = omega (arith, len-prefix-le n s)

pub seen-IsValid : (d : Device) (t : Option ℕ) → IsValid d → IsValid (record d { last_seen = t })
seen-IsValid d t v = record {
  quiet = v.quiet;
  message_fits = v.message_fits;
  hardware_id_fits = v.hardware_id_fits;
  fw_version_fits = v.fw_version_fits;
  device_type_fits = v.device_type_fits;
  hw_rev_fits = v.hw_rev_fits;
  interval_fits = v.interval_fits;
  display_name_fits = v.display_name_fits;
  location_fits = v.location_fits;
  location_type_fits = v.location_type_fits;
  cells_fit = v.cells_fit;
}

-- A handler that finds its device and then keeps to it is confined.
module _ (now : ℕ) (id : String) (body : Dict Json → Run → Outcome × World)
    (confined : (fields : Dict Json) (r : Run)
      → Found id r
      → Effects now id r.world (body fields r).1) where
  with_row-Effects :
      (fields : Dict Json) (w : World) (o : Option Device)
      → find_device id w.devices ≡ o
      → Effects now id w (with_row fields body w o).1
  with_row-Effects fields w none e = done
  with_row-Effects fields w (some d) e = confined fields (record { device = d; world = w }) e

  pub with_device-Effects : (m : Decoded) (w : World) → Effects now id w (with_device m id body w).1
  unfolding with_device
  with_device-Effects (refused o) w = done
  with_device-Effects (decoded fields) w = with_row-Effects fields w _ refl

status_message-fits :
    (message : Json) (d : Device) → IsValid d → len (status_message message d) ≤ 256
unfolding status_message
status_message-fits (Json.str message) d v = len-prefix-le 256 message
status_message-fits _ d v = v.message_fits

reported_alert-IsValid :
    (now : ℕ) (level : AlertLevel) (message : Json) (d : Device)
    → IsValid d
    → IsValid (reported_alert now level message d)
unfolding reported_alert
reported_alert-IsValid now clear message d v = clear_alert-IsValid d v
reported_alert-IsValid now AlertLevel.warning message d v =
    set_alert-IsValid AlertLevel.warning (status_message message d) (some now) d (λ e. cc)
      (status_message-fits message d v) v
reported_alert-IsValid now AlertLevel.error message d v =
    set_alert-IsValid AlertLevel.error (status_message message d) (some now) d (λ e. cc)
      (status_message-fits message d v) v

-- A new alert and the time of the message.
abbrev alerted : ℕ → AlertLevel → String → Option ℕ → Device → Device
alerted now level message updated d = record (set_alert level message updated d) {
  last_seen = some now;
}

-- They are saved, logged and announced.
module _ (now : ℕ) (id : String) (level : AlertLevel) (message : String) (updated : Option ℕ)
    (r : Run) (h : Found id r)
    (valid : IsValid r.device → IsValid (set_alert level message updated r.device)) where
  abbrev alert_saved : Run
  alert_saved = record r {
    device = alerted now level message updated r.device;
    world = save copy_alert_and_last_seen (alerted now level message updated r.device) r.world;
  }

  alert_saved-Reaches : Reaches now id r alert_saved
  alert_saved-Reaches =
      save-Reaches copy_alert_and_last_seen alert_saved.device r h (λ row. refl) refl refl refl
        (λ v. seen-IsValid (set_alert level message updated r.device) (some now) (valid v))

  alert_logged-Effects :
      Effects now id r.world (log_and_announce now alert_saved.device alert_saved.world)
  alert_logged-Effects =
      and_then alert_saved-Reaches.effects
        (log_and_announce-Quiet alert_saved.device alert_saved.world
          (Found-device_id id alert_saved alert_saved-Reaches.found)).effects

report_status-Effects :
    (now : ℕ) (id : String) (level : AlertLevel) (message : Json) (r : Run)
    → Found id r
    → Effects now id r.world (report_status now level message r)
unfolding report_status reported_alert
report_status-Effects now id clear message r h =
    alert_logged-Effects now id clear "" none r h
      (reported_alert-IsValid now clear message r.device)
report_status-Effects now id AlertLevel.warning message r h =
    alert_logged-Effects now id AlertLevel.warning (status_message message r.device) (some now) r h
      (reported_alert-IsValid now AlertLevel.warning message r.device)
report_status-Effects now id AlertLevel.error message r h =
    alert_logged-Effects now id AlertLevel.error (status_message message r.device) (some now) r h
      (reported_alert-IsValid now AlertLevel.error message r.device)

status_at-Effects :
    (now : ℕ) (id : String) (fields : Dict Json) (r : Run) (o : Option AlertLevel)
    → Found id r
    → Effects now id r.world (status_at now fields r o).1
status_at-Effects now id fields r none h = done
status_at-Effects now id fields r (some level) h = report_status-Effects now id level _ r h

pub handle_status_message-Effects :
    (py : Python) (now : ℕ) (device_type id : String) (payload : List ℕ) (w : World)
    → Effects now id w (handle_status_message py now device_type id payload w).1
unfolding handle_status_message status_body
handle_status_message-Effects py now device_type id payload w =
    with_device-Effects now id (status_body now)
      (λ fields r h. status_at-Effects now id fields r _ h) (decode py payload) w

diag_alert-IsValid :
    (now : ℕ) (level : DiagLevel) (message : String) (d : Device)
    → len message ≤ 256
    → IsValid d
    → IsValid (diag_alert now level message d)
unfolding diag_alert
diag_alert-IsValid now DiagLevel.ok message d fits v = clear_alert-IsValid d v
diag_alert-IsValid now DiagLevel.info message d fits v = clear_alert-IsValid d v
diag_alert-IsValid now DiagLevel.warning message d fits v =
    set_alert-IsValid AlertLevel.warning message (some now) d (λ e. cc) fits v
diag_alert-IsValid now DiagLevel.error message d fits v =
    set_alert-IsValid AlertLevel.error message (some now) d (λ e. cc) fits v

-- The alert that a diagnostics snapshot stands for, and what follows its save.
report_at-Effects :
    (now : ℕ) (id : String) (level : AlertLevel) (message : String) (updated : Option ℕ)
    (changed : Bool) (r : Run)
    → Found id r
    → (IsValid r.device → IsValid (set_alert level message updated r.device))
    → Effects now id r.world (
        let d = alerted now level message updated r.device in
        let w = save copy_alert_and_last_seen d r.world in
        if changed then log_and_announce now d w else w)
report_at-Effects now id level message updated changed r h valid =
    Effects-if changed (alert_logged-Effects now id level message updated r h valid)
      (alert_saved-Reaches now id level message updated r h valid).effects

diag_message-fits : (message : Json) → len (diag_message message) ≤ 256
unfolding diag_message
diag_message-fits (Json.str message) = len-prefix-le 256 message
diag_message-fits _ = omega arith

diag_logged-Quiet :
    {now : ℕ} {id : String} (s : DiagLog) (w : World)
    → s.device ≡ id
    → Quiet now id w (record w { diag_logs = w.diag_logs ++ s ∷ [] })
diag_logged-Quiet s w own = record { effects = one (logs_diag s own); devices = refl }

report_level-Effects :
    (now : ℕ) (id message : String) (level : DiagLevel) (changed : Bool) (r : Run)
    → Found id r
    → len message ≤ 256
    → Effects now id r.world (
        let d = record (diag_alert now level message r.device) { last_seen = some now } in
        let w = save copy_alert_and_last_seen d r.world in
        if changed then log_and_announce now d w else w)
unfolding diag_alert
report_level-Effects now id message DiagLevel.ok changed r h fits =
    report_at-Effects now id clear "" none changed r h (clear_alert-IsValid r.device)
report_level-Effects now id message DiagLevel.info changed r h fits =
    report_at-Effects now id clear "" none changed r h (clear_alert-IsValid r.device)
report_level-Effects now id message DiagLevel.warning changed r h fits =
    report_at-Effects now id AlertLevel.warning message (some now) changed r h
      (set_alert-IsValid AlertLevel.warning message (some now) r.device (λ e. cc) fits)
report_level-Effects now id message DiagLevel.error changed r h fits =
    report_at-Effects now id AlertLevel.error message (some now) changed r h
      (set_alert-IsValid AlertLevel.error message (some now) r.device (λ e. cc) fits)

report_diag-Effects :
    (now : ℕ) (id : String) (s : DiagLog) (r : Run)
    → Found id r
    → len s.message ≤ 256
    → s.device ≡ id
    → Effects now id r.world (report_diag now s r)
unfolding report_diag
report_diag-Effects now id s r h fits own =
    let w = record r.world { diag_logs = r.world.diag_logs ++ s ∷ [] } in
    and_then (diag_logged-Quiet s r.world own).effects (
      report_level-Effects now id s.message s.level
        (alert_changed r.device
          (record (diag_alert now s.level s.message r.device) { last_seen = some now }))
        (record r { world = w }) h fits)

diag_parsed-Effects :
    (now : ℕ) (id message : String) (level : DiagLevel) (r : Run) (o : Option DiagLog)
    → Found id r
    → len message ≤ 256
    → Holds (IsSnapshot now r.device.device_id level message) o
    → Effects now id r.world (diag_parsed now r o).1
diag_parsed-Effects now id message level r none h fits shot = done
diag_parsed-Effects now id message level r (some s) h fits shot =
    report_diag-Effects now id s r h (rw shot.same_message fits)
      (shot.of_device ∙ Found-device_id id r h)

diag_at-Effects :
    (now : ℕ) (id : String) (fields : Dict Json) (r : Run) (o : Option DiagLevel)
    → Found id r
    → Effects now id r.world (diag_at now fields r o).1
diag_at-Effects now id fields r none h = done
diag_at-Effects now id fields r (some level) h =
    let message = get_or "message" (Json.str "") fields in
    diag_parsed-Effects now id (diag_message message) level r
      (snapshot now r.device.device_id level fields) h (diag_message-fits message)
      (snapshot-IsSnapshot now r.device.device_id level fields)

pub handle_diag_message-Effects :
    (py : Python) (now : ℕ) (device_type id : String) (payload : List ℕ) (w : World)
    → Effects now id w (handle_diag_message py now device_type id payload w).1
unfolding handle_diag_message diag_body
handle_diag_message-Effects py now device_type id payload w =
    with_device-Effects now id (diag_body now) (λ fields r h. diag_at-Effects now id fields r _ h)
      (decode py payload) w

commands_body-Effects :
    (now : ℕ) (id : String) (fields : Dict Json) (r : Run)
    → Found id r
    → Effects now id r.world (commands_body now fields r).1
unfolding commands_body
commands_body-Effects now id fields r h =
    let c = record r.device.capabilities {
      commands = some (command_names (get_or "commands" Json.null fields));
      command_params = some (params_of (get_or "command_params" Json.null fields));
    } in
    (save-Reaches copy_capabilities_and_last_seen
      (record r.device { capabilities = c; last_seen = some now }) r h (λ row. refl) refl refl refl
      (λ v. ground arith)).effects

pub handle_commands_message-Effects :
    (py : Python) (now : ℕ) (device_type id : String) (payload : List ℕ) (w : World)
    → Effects now id w (handle_commands_message py now device_type id payload w).1
unfolding handle_commands_message
handle_commands_message-Effects py now device_type id payload w =
    with_device-Effects now id (commands_body now) (commands_body-Effects now id)
      (decode py payload) w

store_mirror-Effects :
    (now : ℕ) (id : String) (r : Run) (o : Option (Dict Json))
    → Found id r
    → Effects now id r.world (store_mirror now r o).1
store_mirror-Effects now id r none h = done
store_mirror-Effects now id r (some mirror) h =
    (save-Reaches copy_calibration_and_last_seen
      (record r.device { calibration = mirror; last_seen = some now }) r h (λ row. refl) refl refl
      refl (λ v. ground arith)).effects

pub handle_calibration_message-Effects :
    (py : Python) (now : ℕ) (device_type id : String) (payload : List ℕ) (w : World)
    → Effects now id w (handle_calibration_message py now device_type id payload w).1
unfolding handle_calibration_message calibration_body
handle_calibration_message-Effects py now device_type id payload w =
    with_device-Effects now id (calibration_body py now)
      (λ fields r h. store_mirror-Effects now id r _ h) (decode py payload) w
