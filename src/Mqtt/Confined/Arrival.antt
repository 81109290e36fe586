-- ===== src/Mqtt/Confined/Arrival.antt =====
-- The first steps of `handle_sensor_message`: the alert reconciliation and its save.
use sensor_server.Prelude.{
  ℕ, String, ◌≡◌, refl, true, Option, none, some, arith, if_cases, ◌≤◌, ◌==◌,
}
use sensor_server.Text.{len}
use sensor_server.Store.{Device, AlertLevel, clear}
use sensor_server.World.{Run, save}
use sensor_server.Mqtt.Alert.{no_capabilities_alert, set_alert, clear_alert, log_and_announce}
use sensor_server.Mqtt.Requests.{has_alert}
use sensor_server.Mqtt.Sensor.{
  seen, seen_and_time, seen_and_alert, copy_fields, Reconciled, cleared_with_event, reconcile_since,
  reconcile_reported, reconcile_alert, mark_seen,
}
use sensor_server.Mqtt.Effects.{IsValid}
use sensor_server.Mqtt.Confined.{
  Found, Reaches, Reaches-trans, Quiet-Reaches, Found-device_id, save-Reaches,
  log_and_announce-Quiet,
}

-- A new alert keeps a device valid, if its message fits and nothing is left of a cleared one.
pub set_alert-IsValid :
    (level : AlertLevel) (message : String) (updated : Option ℕ) (d : Device)
    → (level ≡ clear → (message ≡ "") × (updated ≡ none))
    → len message ≤ 256
    → IsValid d
    → IsValid (set_alert level message updated d)
set_alert-IsValid level message updated d quiet fits v = record {
  quiet = quiet;
  message_fits = fits;
  hardware_id_fits = v.hardware_id_fits;
  fw_version_fits = v.fw_version_fits;
  device_type_fits = v.device_type_fits;
  hw_rev_fits = v.hw_rev_fits;
  interval_fits = v.interval_fits;
  display_name_fits = v.display_name_fits;
  location_fits = v.location_fits;
  location_type_fits = v.location_type_fits;
  cells_fit = v.cells_fit;
}

-- Only the fields of IsValid count.
pub clear_alert-IsValid : (d : Device) → IsValid d → IsValid (clear_alert d)
clear_alert-IsValid d v = set_alert-IsValid clear "" none d (λ _. (refl, refl)) (omega arith) v

timed-IsValid :
    (d : Device) (now : ℕ)
    → has_alert d ≡ true
    → IsValid d
    → IsValid (record d { alert_updated_at = some now })
timed-IsValid d now alerted v =
    set_alert-IsValid d.alert_level d.alert_message (some now) d (λ e. ground arith) v.message_fits
      v

-- The save that ends the reconciliation.
abbrev finish : Reconciled → Run
finish s = record s.run { world = save (copy_fields s.fields) s.run.device s.run.world }

module _ (now : ℕ) (id : String) (r : Run) (h : Found id r) where
  abbrev touched : Run
  touched = record r { device = record r.device { last_seen = some now } }

  touched-IsValid : IsValid r.device → IsValid touched.device
  touched-IsValid v = record {
    quiet = v.quiet;
    message_fits = v.message_fits;
    hardware_id_fits = v.hardware_id_fits;
    fw_version_fits = v.fw_version_fits;
    device_type_fits = v.device_type_fits;
    hw_rev_fits = v.hw_rev_fits;
    interval_fits = v.interval_fits;
    display_name_fits = v.display_name_fits;
    location_fits = v.location_fits;
    location_type_fits = v.location_type_fits;
    cells_fit = v.cells_fit;
  }

  seen-Reaches : Reaches now id r (finish (record { run = touched; fields = seen }))
  unfolding copy_fields
  seen-Reaches =
      save-Reaches (copy_fields seen) touched.device r h (λ row. refl) refl refl refl
        touched-IsValid

  cleared-Reaches : Reaches now id r (finish (cleared_with_event now touched))
  unfolding cleared_with_event copy_fields
  cleared-Reaches =
      let d = clear_alert touched.device in
      let w = log_and_announce now d r.world in
      let logged =
        Quiet-Reaches r w h (log_and_announce-Quiet d r.world (Found-device_id id r h)) in
      Reaches-trans logged (
        save-Reaches (copy_fields seen_and_alert) d (record r { world = w }) logged.found
          (λ row. refl) refl refl refl
          (λ v. clear_alert-IsValid touched.device (touched-IsValid v)))

  timed-Reaches :
      has_alert r.device ≡ true
      → Reaches now id r (
          finish (record {
            run = record touched { device = record touched.device { alert_updated_at = some now } };
            fields = seen_and_time;
          }))
  unfolding copy_fields
  timed-Reaches alerted =
      save-Reaches (copy_fields seen_and_time)
        (record touched.device { alert_updated_at = some now }) r h (λ row. refl) refl refl refl
        (λ v. timed-IsValid touched.device now alerted (touched-IsValid v))

  since-Reaches :
      has_alert r.device ≡ true
      → (o : Option ℕ) → Reaches now id r (finish (reconcile_since now touched o))
  since-Reaches alerted none = timed-Reaches alerted
  since-Reaches alerted (some updated) =
      if_cases (λ s. Reaches now id r (finish s)) _ (λ _. cleared-Reaches) (λ _. seen-Reaches)

  pub mark_seen-Reaches : Reaches now id r (mark_seen now r)
  unfolding mark_seen reconcile_alert reconcile_reported
  mark_seen-Reaches =
      if_cases (λ s. Reaches now id r (finish s)) (r.device.alert_message == no_capabilities_alert)
        (λ _. cleared-Reaches)
        (λ _.
          if_cases (λ s. Reaches now id r (finish s)) (has_alert r.device)
            (λ alerted. since-Reaches alerted r.device.alert_updated_at) (λ _. seen-Reaches))
