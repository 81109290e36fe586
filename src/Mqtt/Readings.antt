-- ===== src/Mqtt/Readings.antt =====
-- The readings of one sensor message: the loop of `handle_sensor_message` in
-- web/mqtt_bridge/services.py beside a description of what is collected, and what is stored in the end.
use mathlib.Core.Option
use sensor_server.Prelude.{
  ℕ, String, ◌≡◌, refl, sym, ◌∙◌, ap, Bool, true, false, Option, none, some, List, [], ◌∷◌, ◌++◌,
  map, append-nil, append_assoc, if◌then◌else◌, if_cases, ◌&&◌,
}
use sensor_server.Store.{effective_name}
use sensor_server.Mqtt.Payload.{rejected, not_approved}
use sensor_server.Mqtt.Alert.{announce, log_and_announce}
use sensor_server.Mqtt.Requests.{
  send_command, request_diag, should_poll, diag_polled, maybe_request_diag,
}
use sensor_server.Value.{
  Json, Dict, Float, Python, Converted, converted, not_numeric, too_big, to_float,
}
use sensor_server.World.{
  World, Run, Event, sensor_reading, SensorReading, group_send, save, log_status, mqtt_publish,
}
use sensor_server.Mqtt.Sensor.{
  valid_metric, canonical_metric, Collected, add_reading, collect_item, collect, same_percent,
  set_battery, last_value, battery_recovered, reconcile_battery, track_battery, store_readings,
  ingest,
}

-- The reading of an item, if its name is a valid metric and its value is a number.
abbrev pub number_of : Bool → Converted → Option Float
number_of true (converted x) = some x
number_of _ _ = none

abbrev pub prepend : ℕ → String → String → Option Float → List SensorReading → List SensorReading
prepend now id metric none rest = rest
prepend now id metric (some x) rest =
    record { time = now; device_id = id; metric = metric; value = x } ∷ rest

-- One reading for each such item, in the order of the payload, under the canonical name.
abbrev pub readings_of : Python → ℕ → String → Dict Json → List SensorReading
readings_of py now id [] = []
readings_of py now id ((raw, value) ∷ items) =
    prepend now id (canonical_metric raw) (number_of (valid_metric raw) (to_float py value))
      (readings_of py now id items)

-- No valid item has a number that is too big for a float.
abbrev pub FitsItem : Bool → Converted → Type 0
FitsItem true too_big = ⊥
FitsItem _ _ = Unit

abbrev pub AllFit : Python → Dict Json → Type 0
AllFit py [] = Unit
AllFit py ((raw, value) ∷ items) = FitsItem (valid_metric raw) (to_float py value) × AllFit py items

abbrev pub event_of : String → String → SensorReading → Event
event_of device_type name s = sensor_reading s.device_id device_type s.metric s.value s.time name

-- What the loop ends with.
pub record IsCollected (device_type name : String) (readings : List SensorReading) (w : World)
    (c : Collected) : Type 0 where
  pub stored : c.readings ≡ some readings
  pub announced : c.world.events ≡ w.events ++ map (event_of device_type name) readings

module _ (py : Python) (now : ℕ) (device_type id name : String) where
  collect_item-IsCollected :
      (raw : String) (valid : Bool) (x : Converted) (readings : List SensorReading)
      (rest : World → Collected)
      → FitsItem valid x
      → ((w : World) → IsCollected device_type name readings w (rest w))
      → (w : World)
      → IsCollected device_type name
          (prepend now id (canonical_metric raw) (number_of valid x) readings)
          w
          (collect_item now device_type id name raw valid x rest w)
  unfolding add_reading group_send
  collect_item-IsCollected raw false x readings rest h ih w = ih w
  collect_item-IsCollected raw true not_numeric readings rest h ih w = ih w
  collect_item-IsCollected raw true too_big readings rest h ih w = absurd h
  collect_item-IsCollected raw true (converted x) readings rest h ih w =
      let metric = canonical_metric raw in
      let e = sensor_reading id device_type metric x now name in
      let c = ih (group_send e w) in
      record {
        stored =
            ap
              (λ o.
                Option.map
                  (λ l. record { time = now; device_id = id; metric = metric; value = x } ∷ l) o)
              c.stored;
        announced =
            c.announced ∙ append_assoc w.events (e ∷ []) (map (event_of device_type name) readings);
      }

  -- If no number is too big for a float, the loop collects one reading for each item with a valid
  -- name and a numeric value, in the payload's order and under the canonical name, and announces
  -- each once; all other items are skipped.
  pub collect-IsCollected :
      (fields : Dict Json) (w : World)
      → AllFit py fields
      → IsCollected device_type name
          (readings_of py now id fields)
          w
          (collect py now device_type id name fields w)
  unfolding collect
  collect-IsCollected [] w h = record { stored = refl; announced = sym (append-nil w.events) }
  collect-IsCollected ((raw, value) ∷ items) w h =
      collect_item-IsCollected raw (valid_metric raw) (to_float py value)
        (readings_of py now id items) (λ v. collect py now device_type id name items v) h.0
        (λ v. collect-IsCollected items v h.1) w

-- Is each number of the items within the range of a float?
abbrev pub fits_item : Bool → Converted → Bool
fits_item true too_big = false
fits_item _ _ = true

abbrev pub all_fit : Python → Dict Json → Bool
all_fit py [] = true
all_fit py ((raw, value) ∷ items) =
    fits_item (valid_metric raw) (to_float py value) && all_fit py items

module _ (py : Python) (now : ℕ) (device_type id name : String) where
  -- What the loop hands on: all readings, or nothing if float() raised.
  item-readings :
      (raw : String) (valid : Bool) (x : Converted) (fit : Bool) (readings : List SensorReading)
      (rest : World → Collected)
      → ((w : World) → (rest w).readings ≡ (if fit then some readings else none))
      → (w : World)
      → (collect_item now device_type id name raw valid x rest w).readings ≡ (
          if fits_item valid x && fit
          then some (prepend now id (canonical_metric raw) (number_of valid x) readings)
          else none)
  unfolding add_reading
  item-readings raw false x fit readings rest ih w = ih w
  item-readings raw true not_numeric fit readings rest ih w = ih w
  item-readings raw true too_big fit readings rest ih w = refl
  item-readings raw true (converted x) true readings rest ih w =
      ap
        (λ o.
          Option.map
            (λ l.
              record { time = now; device_id = id; metric = canonical_metric raw; value = x } ∷ l)
            o)
        (ih _)
  item-readings raw true (converted x) false readings rest ih w =
      ap
        (λ o.
          Option.map
            (λ l.
              record { time = now; device_id = id; metric = canonical_metric raw; value = x } ∷ l)
            o)
        (ih _)

  collect-readings :
      (fields : Dict Json) (w : World)
      → (collect py now device_type id name fields w).readings
        ≡ (if all_fit py fields then some (readings_of py now id fields) else none)
  unfolding collect
  collect-readings [] w = refl
  collect-readings ((raw, value) ∷ items) w =
      item-readings raw (valid_metric raw) (to_float py value) (all_fit py items)
        (readings_of py now id items) (λ v. collect py now device_type id name items v)
        (λ v. collect-readings items v) w

  item-table :
      (raw : String) (valid : Bool) (x : Converted) (rest : World → Collected)
      → ((w : World) → (rest w).world.readings ≡ w.readings)
      → (w : World)
      → (collect_item now device_type id name raw valid x rest w).world.readings ≡ w.readings
  unfolding add_reading group_send
  item-table raw false x rest ih w = ih w
  item-table raw true not_numeric rest ih w = ih w
  item-table raw true too_big rest ih w = refl
  item-table raw true (converted x) rest ih w = ih _

  collect-table :
      (fields : Dict Json) (w : World)
      → (collect py now device_type id name fields w).world.readings ≡ w.readings
  unfolding collect
  collect-table [] w = refl
  collect-table ((raw, value) ∷ items) w =
      item-table raw (valid_metric raw) (to_float py value)
        (λ v. collect py now device_type id name items v) (λ v. collect-table items v) w

set_battery-table : (x : Float) (r : Run) → (set_battery x r).world.readings ≡ r.world.readings
unfolding set_battery save
set_battery-table x r =
    if_cases (λ (s : Run). s.world.readings ≡ r.world.readings)
      (same_percent x r.device.battery_percent) (λ _. refl) (λ _. refl)

reconcile_battery-table :
    (now : ℕ) (r : Run) → (reconcile_battery now r).readings ≡ r.world.readings
unfolding reconcile_battery save log_and_announce log_status announce group_send
reconcile_battery-table now r =
    if_cases (λ (w : World). w.readings ≡ r.world.readings) (battery_recovered r.device) (λ _. refl)
      (λ _. refl)

track_battery-table :
    (now : ℕ) (o : Option Float) (r : Run) → (track_battery now o r).readings ≡ r.world.readings
unfolding track_battery
track_battery-table now none r = refl
track_battery-table now (some x) r =
    reconcile_battery-table now (set_battery x r) ∙ set_battery-table x r

store_readings-table :
    (now : ℕ) (fit : Bool) (readings : List SensorReading) (r : Run)
    → (store_readings now (if fit then some readings else none) r).1.readings
      ≡ r.world.readings ++ (if fit then readings else [])
unfolding store_readings
store_readings-table now true [] r = sym (append-nil r.world.readings)
store_readings-table now true (s ∷ rest) r =
    track_battery-table now (last_value "bat_percent" (s ∷ rest))
      (record r { world = record r.world { readings = r.world.readings ++ s ∷ rest } })
store_readings-table now false readings r = sym (append-nil r.world.readings)

maybe_request_diag-table :
    (now : ℕ) (r : Run) → (maybe_request_diag now r).world.readings ≡ r.world.readings
unfolding maybe_request_diag diag_polled save request_diag send_command mqtt_publish
maybe_request_diag-table now r =
    if_cases (λ (s : Run). s.world.readings ≡ r.world.readings) (should_poll now r.device)
      (λ _.
        if_cases (λ (o : Bool × World). o.1.readings ≡ r.world.readings)
          (r.world.broker r.world.attempts) (λ _. refl) (λ _. refl))
      (λ _. refl)

-- What a message of sensor data adds to the table of readings, once its device is loaded and marked as
-- seen: if the device is approved and no number of an item with a valid name is too big for a float,
-- one reading for each item with a valid name and a numeric value, in the payload's order, at the time
-- of the message, for the id of the topic and under the canonical name; else nothing.
pub ingest-readings :
    (py : Python) (now : ℕ) (device_type id : String) (fields : Dict Json) (r : Run)
    → (ingest py now device_type id fields r).1.readings
      ≡ r.world.readings
        ++ (if r.device.is_approved && all_fit py fields then readings_of py now id fields else [])
unfolding ingest
ingest-readings py now device_type id fields r = by_approval r.device.is_approved
  where
    by_approval :
        (b : Bool)
        → (if b
            then (let polled = maybe_request_diag now r in
                let c =
                  collect py now device_type id
                    (effective_name polled.device)
                    fields
                    polled.world in
                store_readings now c.readings (record polled { world = c.world }))
            else (rejected not_approved, r.world)).1.readings
          ≡ r.world.readings
            ++ (if b && all_fit py fields then readings_of py now id fields else [])
    by_approval true =
        let polled = maybe_request_diag now r in
        let name = effective_name polled.device in
        let c = collect py now device_type id name fields polled.world in
        let s = record polled { world = c.world } in
        ap (λ o. (store_readings now o s).1.readings)
          (collect-readings py now device_type id name fields polled.world)
        ∙ store_readings-table now (all_fit py fields) (readings_of py now id fields) s
        ∙ ap (λ l. l ++ (if all_fit py fields then readings_of py now id fields else []))
            (collect-table py now device_type id name fields polled.world
              ∙ maybe_request_diag-table now r)
    by_approval false = sym (append-nil r.world.readings)
