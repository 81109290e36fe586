-- ===== src/Mqtt/Confined/Sensor.antt =====
-- `handle_sensor_message` is confined to the device of its topic.
use sensor_server.Prelude.{
  ℕ, String, ◌≡◌, refl, sym, ◌∙◌, ap, subst, Bool, true, false, not, ◌||◌, List, [], ◌∷◌, ◌++◌,
  Option, none, some, All, arith, if_cases,
}
use sensor_server.Text.{concat}
use sensor_server.Value.{
  Json, Dict, Float, Python, Converted, converted, not_numeric, too_big, to_float,
}
use sensor_server.Store.{Device, AlertLevel, new_device, is_online, supports_diag, effective_name}
use sensor_server.World.{
  World, Run, SensorReading, sensor_reading, timeout, find_device, save, group_send, log_status,
}
use sensor_server.World.Tables.{find_device-append_self}
use sensor_server.Mqtt.Payload.{Outcome, Decoded, decode, decoded, refused}
use sensor_server.Mqtt.Alert.{no_capabilities_alert, set_alert, clear_alert, copy_alert}
use sensor_server.Mqtt.Requests.{
  request_capabilities, request_commands, maybe_request_diag, flush_pending_commands,
  check_ota_timeouts, show,
}
use sensor_server.Mqtt.Sensor.{
  is_refused, sensor_found, discovered, get_or_create, mark_seen, wake_up, capabilities_timeout,
  copy_alert_and_request, capabilities_timed_out, check_request, check_capabilities_timeout,
  valid_metric, canonical_metric, Collected, add_reading, collect_item, collect, last_value,
  copy_battery_percent, same_percent, set_battery, battery_recovered, reconcile_battery,
  track_battery, store_readings, after_seen, ingest, sensor_body, sensor_decoded,
  handle_sensor_message,
}
use sensor_server.Mqtt.Effects.{
  Effects, done, discovers, notifies, stores, IsValid, IsReading, IsApprovedRow,
}
use sensor_server.Mqtt.Effects.Devices.{approval, Effects-approval}
use sensor_server.Mqtt.Effects.Closure.{one, and_then, Effects-if}
use sensor_server.Mqtt.Confined.{
  Found, Quiet, Reaches, Quiet-refl, Quiet-trans, Reaches-refl, Reaches-trans, Reaches-if,
  Quiet-Reaches, Found-device_id, save-Reaches, log_status-Quiet, log_and_announce-Quiet,
}
use sensor_server.Mqtt.Confined.Requests.{
  flush-Quiet, check_ota_timeouts-Quiet, resolve_capability_requests-Quiet,
  request_commands-Reaches, request_status-Reaches, request_capabilities-Reaches,
  maybe_request_diag-Reaches,
}
use sensor_server.Mqtt.Confined.Arrival.{set_alert-IsValid, clear_alert-IsValid, mark_seen-Reaches}

pub wake_up-Reaches :
    {now : ℕ} {id : String} (r : Run) → Found id r → Reaches now id r (wake_up now r)
unfolding wake_up
wake_up-Reaches {now} r h =
    let r1 = record r { world = flush_pending_commands r.device r.world } in
    let flushed = Quiet-Reaches r _ h (flush-Quiet r.device r.world) in
    let r2 = request_capabilities now none false r1 in
    let asked = request_capabilities-Reaches none false r1 flushed.found in
    let listed = request_commands-Reaches r2 asked.found in
    let both = Reaches-trans flushed (Reaches-trans asked listed) in
    Reaches-if (supports_diag (request_commands r2).device)
      (Reaches-trans both (request_status-Reaches (request_commands r2) listed.found)) both

pub capabilities_timed_out-Reaches :
    {now : ℕ} {id : String} (r : Run) → Found id r → Reaches now id r (capabilities_timed_out now r)
unfolding capabilities_timed_out
capabilities_timed_out-Reaches {now} {id} r h =
    let flagged = set_alert AlertLevel.error no_capabilities_alert (some now) r.device in
    let d = record flagged { capabilities_requested_at = none } in
    let s = record r { device = d; world = save copy_alert_and_request d r.world } in
    let valid = λ (v : IsValid r.device).
      let u =
        set_alert-IsValid AlertLevel.error no_capabilities_alert (some now) r.device (λ e. cc)
          (omega arith) v in
      let t : IsValid d = record {
        quiet = u.quiet;
        message_fits = u.message_fits;
        hardware_id_fits = u.hardware_id_fits;
        fw_version_fits = u.fw_version_fits;
        device_type_fits = u.device_type_fits;
        hw_rev_fits = u.hw_rev_fits;
        interval_fits = u.interval_fits;
        display_name_fits = u.display_name_fits;
        location_fits = u.location_fits;
        location_type_fits = u.location_type_fits;
        cells_fit = u.cells_fit;
      } in
      t in
    let saved = save-Reaches copy_alert_and_request d r h (λ row. refl) refl refl refl valid in
    let own = Found-device_id id s saved.found in
    Reaches-trans saved (
      Quiet-Reaches s _ saved.found (
        Quiet-trans (log_status-Quiet d s.world own) (
          resolve_capability_requests-Quiet d timeout
            (concat "No response within " (concat (show (capabilities_timeout d)) "s"))
            (log_status now d s.world) refl own)))

pub check_request-Reaches :
    {now : ℕ} {id : String} (r : Run) (o : Option ℕ)
    → Found id r
    → Reaches now id r (check_request now r o)
check_request-Reaches r none h = Reaches-refl r h
check_request-Reaches r (some asked) h =
    Reaches-if _ (capabilities_timed_out-Reaches r h) (Reaches-refl r h)

pub after_seen-Reaches :
    {now : ℕ} {id : String} (created was_online : Bool) (r : Run)
    → Found id r
    → Reaches now id r (after_seen now created was_online r)
unfolding after_seen check_capabilities_timeout
after_seen-Reaches {now} {id} created was_online r h =
    let r1 = record r { world = check_ota_timeouts now r.device r.world } in
    let timed =
      Quiet-Reaches r r1.world h
        (check_ota_timeouts-Quiet r.device r.world (Found-device_id id r h)) in
    Reaches-trans timed (
      Reaches-if (created || not was_online) (wake_up-Reaches r1 timed.found)
        (check_request-Reaches r1 r1.device.capabilities_requested_at timed.found))

-- The readings collected so far, if no conversion raised.
abbrev AllReadings : ℕ → String → Option (List SensorReading) → Type 0
AllReadings now id none = Unit
AllReadings now id (some readings) = All (IsReading now id) readings

record CollectsOwn (now : ℕ) (id : String) (w : World) (c : Collected) : Type 0 where
  quiet : Quiet now id w c.world
  own : AllReadings now id c.readings

AllReadings-cons :
    (now : ℕ) (id : String) (s : SensorReading) (o : Option (List SensorReading)) (v : World)
    → IsReading now id s
    → AllReadings now id o
    → AllReadings now id (add_reading s (record { readings = o; world = v })).readings
unfolding add_reading
AllReadings-cons now id s none v h all = tt
AllReadings-cons now id s (some readings) v h all = (h, all)

collect_item-CollectsOwn :
    (now : ℕ) (device_type id name raw : String) (valid : Bool) (x : Converted)
    (rest : World → Collected) (w : World)
    → valid_metric raw ≡ valid
    → ((v : World) → CollectsOwn now id v (rest v))
    → CollectsOwn now id w (collect_item now device_type id name raw valid x rest w)
collect_item-CollectsOwn now device_type id name raw false x rest w e all = all w
collect_item-CollectsOwn now device_type id name raw true not_numeric rest w e all = all w
collect_item-CollectsOwn now device_type id name raw true too_big rest w e all = record {
  quiet = Quiet-refl w;
  own = tt;
}
collect_item-CollectsOwn now device_type id name raw true (converted x) rest w e all =
    let event = sensor_reading id device_type (canonical_metric raw) x now name in
    let later = all (group_send event w) in
    record {
      quiet =
          Quiet-trans
            (record { effects = one (notifies event); devices = unfold group_send in refl })
            (unfold add_reading in later.quiet);
      own =
          AllReadings-cons now id _ (rest (group_send event w)).readings
            (rest (group_send event w)).world
            (record {
              raw = raw;
              is_valid = e;
              is_canonical = refl;
              at_time = refl;
              of_device = refl;
            })
            later.own;
    }

collect-CollectsOwn :
    (py : Python) (now : ℕ) (device_type id name : String) (items : Dict Json) (w : World)
    → CollectsOwn now id w (collect py now device_type id name items w)
unfolding collect
collect-CollectsOwn py now device_type id name [] w = record { quiet = Quiet-refl w; own = tt }
collect-CollectsOwn py now device_type id name ((raw, value) ∷ items) w =
    collect_item-CollectsOwn now device_type id name raw (valid_metric raw) (to_float py value) _ w
      refl (collect-CollectsOwn py now device_type id name items)

set_battery-Reaches :
    {now : ℕ} {id : String} (percent : Float) (r : Run)
    → Found id r
    → Reaches now id r (set_battery percent r)
unfolding set_battery
set_battery-Reaches percent r h =
    Reaches-if (same_percent percent r.device.battery_percent) (Reaches-refl r h) (
      save-Reaches copy_battery_percent (record r.device { battery_percent = some percent }) r h
        (λ row. refl) refl refl refl (λ v. ground arith))

reconcile_battery-Effects :
    {now : ℕ} {id : String} (r : Run)
    → Found id r
    → Effects now id r.world (reconcile_battery now r)
unfolding reconcile_battery
reconcile_battery-Effects {now} {id} r h =
    let d = clear_alert r.device in
    let saved =
      save-Reaches copy_alert d r h (λ row. refl) refl refl refl (clear_alert-IsValid r.device) in
    Effects-if (battery_recovered r.device)
      (and_then saved.effects
        (log_and_announce-Quiet d (save copy_alert d r.world) (
          Found-device_id id (record { device = d; world = save copy_alert d r.world })
            saved.found)).effects)
      done

track_battery-Effects :
    {now : ℕ} {id : String} (percent : Option Float) (r : Run)
    → Found id r
    → Effects now id r.world (track_battery now percent r)
unfolding track_battery
track_battery-Effects none r h = done
track_battery-Effects (some percent) r h =
    let kept = set_battery-Reaches percent r h in
    and_then kept.effects (reconcile_battery-Effects (set_battery percent r) kept.found)

store_readings-Effects :
    {now : ℕ} {id : String} (o : Option (List SensorReading)) (r : Run)
    → Found id r
    → r.device.is_approved ≡ true
    → AllReadings now id o
    → Effects now id r.world (store_readings now o r).1
unfolding store_readings
store_readings-Effects none r h approved own = done
store_readings-Effects (some []) r h approved own = done
store_readings-Effects {id} (some (s ∷ rest)) r h approved own =
    and_then (one (stores (s ∷ rest) (subst IsApprovedRow (sym h) approved) own)) (
      track_battery-Effects (last_value "bat_percent" (s ∷ rest))
        (record r { world = record r.world { readings = r.world.readings ++ s ∷ rest } }) h)

-- The approval of a device in memory is that of its row, whatever has been written.
Reaches-approved :
    {now : ℕ} {id : String} (r s : Run)
    → Found id r
    → Reaches now id r s
    → r.device.is_approved ≡ true
    → s.device.is_approved ≡ true
Reaches-approved {id} r s h p approved =
    sym (ap approval p.found) ∙ Effects-approval id p.effects ∙ ap approval h ∙ approved

pub ingest-Effects :
    {now : ℕ} {id : String} (py : Python) (device_type : String) (fields : Dict Json) (r : Run)
    → Found id r
    → Effects now id r.world (ingest py now device_type id fields r).1
unfolding ingest
ingest-Effects {now} {id} py device_type fields r h =
    let s = maybe_request_diag now r in
    let polled = maybe_request_diag-Reaches {now = now} r h in
    let name = effective_name s.device in
    let c = collect py now device_type id name fields s.world in
    let collected = collect-CollectsOwn py now device_type id name fields s.world in
    let kept = Quiet-Reaches s c.world polled.found collected.quiet in
    if_cases (λ (o : Outcome × World). Effects now id r.world o.1) r.device.is_approved
      (λ approved. and_then polled.effects (
        and_then kept.effects (
          store_readings-Effects c.readings (record s { world = c.world }) kept.found
            (Reaches-approved r s h polled approved) collected.own)))
      (λ _. done)

discovered-Reaches :
    {now : ℕ} (device_type id : String) (w : World) (o : Option Device)
    → find_device id w.devices ≡ o
    → is_refused device_type o ≡ false
    → Effects now id w (discovered device_type id w o).run.world
      × Found id (discovered device_type id w o).run
discovered-Reaches device_type id w (some d) e accepted = (done, e)
discovered-Reaches device_type id w none e accepted = (
  one (discovers device_type e (ground (arith, accepted))),
  find_device-append_self id w.devices (new_device id device_type) e (unfold new_device in refl),
)

sensor_found-Effects :
    {now : ℕ} (py : Python) (device_type id : String) (fields : Dict Json) (w : World)
    → is_refused device_type (find_device id w.devices) ≡ false
    → Effects now id w (sensor_found py now device_type id fields w).1
unfolding sensor_found get_or_create
sensor_found-Effects {now} py device_type id fields w accepted =
    let found = get_or_create device_type id w in
    let start = discovered-Reaches {now = now} device_type id w _ refl accepted in
    let online = is_online now found.run.device in
    let marked = mark_seen-Reaches now id found.run start.1 in
    let s = mark_seen now found.run in
    let after = after_seen-Reaches {now = now} found.created online s marked.found in
    and_then start.0 (
      and_then marked.effects (
        and_then after.effects (
          ingest-Effects py device_type fields (after_seen now found.created online s)
            after.found)))

sensor_body-Effects :
    {now : ℕ} (py : Python) (device_type id : String) (fields : Dict Json) (w : World)
    → Effects now id w (sensor_body py now device_type id fields w).1
unfolding sensor_body
sensor_body-Effects {now} py device_type id fields w =
    if_cases (λ (o : Outcome × World). Effects now id w o.1)
      (is_refused device_type (find_device id w.devices)) (λ _. done)
      (λ accepted. sensor_found-Effects py device_type id fields w accepted)

sensor_decoded-Effects :
    {now : ℕ} (py : Python) (device_type id : String) (m : Decoded) (w : World)
    → Effects now id w (sensor_decoded py now device_type id m w).1
sensor_decoded-Effects py device_type id (refused o) w = done
sensor_decoded-Effects py device_type id (decoded fields) w =
    sensor_body-Effects py device_type id fields w

pub handle_sensor_message-Effects :
    (py : Python) (now : ℕ) (device_type id : String) (payload : List ℕ) (w : World)
    → Effects now id w (handle_sensor_message py now device_type id payload w).1
unfolding handle_sensor_message
handle_sensor_message-Effects py now device_type id payload w =
    sensor_decoded-Effects py device_type id (decode py payload) w
