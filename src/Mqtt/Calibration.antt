-- ===== src/Mqtt/Calibration.antt =====
-- `handle_calibration_message` of web/mqtt_bridge/services.py.
use sensor_server.Prelude.{ℕ, String, Bool, true, false, ◌&&◌, Option, none, some, [], ◌∷◌, leb}
use sensor_server.Text.{len, safe_identifier_re}
use sensor_server.Value.{Json, Dict, Python, put, is_number, converted, to_float, round}
use sensor_server.Store.{Device}
use sensor_server.World.{World, Run, save}
use sensor_server.Mqtt.Payload.{Outcome, handled, raised, Handler, decode, with_device}
use sensor_server.Mqtt.Sensor.{max_metric_name_len}

-- round(float(value), p) of a number; `none` is the OverflowError
unfoldable pub rounded : Python → ℕ → Json → Option Json
unfolding to_float round
rounded py p value = elim (to_float py value) [
  | converted x ↦ some (Json.float (round x p))
  | _ ↦ none
]

unfoldable pub valid_calibration : String → Json → Bool
unfolding safe_identifier_re is_number
valid_calibration key value =
    leb (len key) max_metric_name_len && safe_identifier_re key && is_number value

-- The loop over the items; `mirror` is the dictionary so far.
unfoldable pub read_mirror : Python → Dict Json → Dict Json → Option (Dict Json)
unfolding valid_calibration rounded put
read_mirror py [] mirror = some mirror
read_mirror py ((key, value) ∷ rest) mirror = elim (valid_calibration key value) [
  | false ↦ read_mirror py rest mirror
  | true ↦ elim (rounded py 4 value) [
    | none ↦ none
    | some x ↦ read_mirror py rest (put key x mirror)
  ]
]

abbrev pub copy_calibration_and_last_seen : Device → Device → Device
copy_calibration_and_last_seen d row = record row {
  calibration = d.calibration;
  last_seen = d.last_seen;
}

abbrev pub store_mirror : ℕ → Run → Option (Dict Json) → Outcome × World
store_mirror now r none = (raised, r.world)
store_mirror now r (some mirror) =
    let d = record r.device { calibration = mirror; last_seen = some now } in
    (handled, save copy_calibration_and_last_seen d r.world)

unfoldable pub calibration_body : Python → ℕ → Dict Json → Run → Outcome × World
unfolding read_mirror save
calibration_body py now fields r = store_mirror now r (read_mirror py fields [])

-- handle_calibration_message
unfoldable pub handle_calibration_message : Handler
unfolding decode with_device calibration_body
handle_calibration_message py now device_type device_id payload w =
    with_device (decode py payload) device_id (calibration_body py now) w
