-- ===== src/Devices/Console.antt =====
-- The views of web/devices/views.py that send a command to one device, behind their role checks.
use sensor_server.Prelude.{
  ℕ, ℤ, pos, String, Bool, true, false, not, ◌||◌, Option, none, some, List, [], ◌∷◌, any, leb,
  ◌==◌, if◌then◌else◌,
}
use sensor_server.Text.{len, is_empty, concat, safe_identifier_re}
use sensor_server.Value.{
  Json, field, end, Float, round, Dict, get, put, Loaded, loaded, malformed, too_deep,
}
use sensor_server.Store.{Device, supports_diag}
use sensor_server.World.{World, Run, save, create_command}
use sensor_server.Mqtt.Requests.{
  action, send_command, request_capabilities, request_commands, request_calibration, request_status,
  request_diag,
}

-- What Python does with the texts of a form, and the JSON column with a value: PostgreSQL refuses
-- what standard JSON has not, such as NaN.
pub record Console : Type 0 where
  pub strip : String → String
  pub parse_float : String → Option Float
  pub parse_int : String → Option ℤ
  pub loads : String → Loaded
  pub is_storable : Json → Bool

-- How a view ends. `server_error` is an exception.
pub data Answer : Type 0 where
  done : Answer
  bad_request : String → Answer
  not_found : Answer
  server_error : Answer

-- request.POST.get(key, default)
unfoldable pub form_text : String → String → Dict String → String
unfolding get
form_text key default form = elim (get key form) [ none ↦ default | some v ↦ v ]

unfoldable pub written : Console → ℕ → Json → Option ℕ → Device → Bool × World → Bool × World
unfolding create_command
written env now command by d (false, w) = (false, w)
written env now command by d (true, w) =
    if env.is_storable command then (true, create_command now d command by w) else (false, w)

-- _publish_calibration_command; false is an exception
unfoldable pub publish_calibration_command :
    Console → ℕ → Json → Option ℕ → Device → World → Bool × World
unfolding send_command written
publish_calibration_command env now command by d w =
    written env now command by d (send_command d command w)

abbrev pub copy_calibration : Device → Device → Device
copy_calibration d row = record row { calibration = d.calibration }

unfoldable pub mirrored : String → Float → Device → Bool × World → Answer × World
unfolding save put
mirrored key value d (false, w) = (bad_request "MQTT publish error.", w)
mirrored key value d (true, w) = (
  done,
  save copy_calibration (record d { calibration = put key (Json.float value) d.calibration }) w,
)

-- round(float(request.POST.get("value", "0")), places)
unfoldable pub rounded : ℕ → Option Float → Option Float
unfolding round
rounded places none = none
rounded places (some x) = some (round x places)

-- CALIBRATION_METRICS
abbrev pub calibration_metrics : List String
calibration_metrics = "temp" ∷ "humi" ∷ "press" ∷ []

abbrev pub offset_command : String → Float → Json
offset_command metric value = Json.dict (
    field "action" (Json.str "set_offset")
      (field "metric" (Json.str metric) (field "value" (Json.float value) end)))

unfoldable pub set_offset : Console → ℕ → Option ℕ → String → Run → Option Float → Answer × World
unfolding concat publish_calibration_command mirrored
set_offset env now by metric r none = (bad_request "Invalid value.", r.world)
set_offset env now by metric r (some value) =
    mirrored (concat "cal_" metric) value r.device
      (publish_calibration_command env now (offset_command metric value) by r.device r.world)

-- device_calibration_view, behind the lookup
unfoldable pub post_calibration : Console → ℕ → Option ℕ → Dict String → Run → Answer × World
unfolding form_text any rounded set_offset
post_calibration env now by form r =
    let metric = env.strip (form_text "metric" "" form) in
    if not (any (λ k. k == metric) calibration_metrics)
    then (bad_request "Invalid metric.", r.world)
    else set_offset env now by metric r (rounded 2 (env.parse_float (form_text "value" "0" form)))

abbrev pub value_command : String → Float → Json
value_command key value = Json.dict (
    field "action" (Json.str "set_calibration")
      (field "key" (Json.str key) (field "value" (Json.float value) end)))

unfoldable pub set_value : Console → ℕ → Option ℕ → String → Run → Option Float → Answer × World
unfolding publish_calibration_command mirrored
set_value env now by key r none = (bad_request "Invalid value.", r.world)
set_value env now by key r (some value) =
    mirrored key value r.device
      (publish_calibration_command env now (value_command key value) by r.device r.world)

-- device_set_calibration_view, behind the lookup
unfoldable pub post_set_calibration : Console → ℕ → Option ℕ → Dict String → Run → Answer × World
unfolding form_text safe_identifier_re rounded set_value
post_set_calibration env now by form r =
    let key = env.strip (form_text "key" "" form) in
    if not (safe_identifier_re key) || not (leb (len key) 64)
    then (bad_request "Invalid calibration key.", r.world)
    else set_value env now by key r (rounded 4 (env.parse_float (form_text "value" "0" form)))

-- device_request_calibration_view, behind the lookup
unfoldable pub post_request_calibration : Run → Answer × World
unfolding request_calibration
post_request_calibration r = (done, (request_calibration r).world)

-- device_request_status_view, behind the lookup
unfoldable pub post_request_status : Run → Answer × World
unfolding request_status supports_diag
post_request_status r =
    if not (supports_diag r.device)
    then (bad_request "Device does not support diagnostics.", r.world)
    else (done, (request_status r).world)

-- device_request_diag_view, behind the lookup
unfoldable pub post_request_diag : Run → Answer × World
unfolding request_diag supports_diag
post_request_diag r =
    if not (supports_diag r.device)
    then (bad_request "Device does not support diagnostics.", r.world)
    else (done, (request_diag r).world)

-- device_request_capabilities_view, behind the lookup
unfoldable pub post_request_capabilities : ℕ → Option ℕ → Run → Answer × World
unfolding request_capabilities request_commands
post_request_capabilities now by r =
    (done, (request_commands (request_capabilities now by true r)).world)

abbrev pub confirm_command : ℕ → Json
confirm_command value =
    Json.dict
      (field "action" (Json.str "set_confirm_uplink") (field "value" (Json.int (pos value)) end))

unfoldable pub logged : ℕ → Json → Option ℕ → Device → Bool × World → Answer × World
unfolding create_command
logged now command by d (false, w) = (bad_request "MQTT publish error.", w)
logged now command by d (true, w) = (done, create_command now d command by w)

-- device_set_confirm_uplink_view, behind the lookup
unfoldable pub post_set_confirm_uplink : ℕ → Option ℕ → Dict String → Run → Answer × World
unfolding supports_diag form_text send_command logged
post_set_confirm_uplink now by form r =
    if not (supports_diag r.device)
    then (bad_request "Device does not support uplink confirmation.", r.world)
    else (let command = confirm_command (if form_text "value" "" form == "1" then 1 else 0) in
        logged now command by r.device (send_command r.device command r.world))

-- The end of device_command_view: a command that the column refuses is already sent.
unfoldable pub commanded : Console → ℕ → Json → Option ℕ → Device → Bool × World → Answer × World
unfolding create_command request_capabilities
commanded env now command by d (false, w) = (bad_request "MQTT publish error.", w)
commanded env now command by d (true, w) =
    if env.is_storable command
    then (
      done,
      (request_capabilities now none false
          (record { device = d; world = create_command now d command by w })).world,
    )
    else (server_error, w)

-- json.loads of the text, or the text as an action
abbrev pub command_of : String → Loaded → Option Json
command_of text (loaded v) = some v
command_of text malformed = some (action text)
command_of text too_deep = none

unfoldable pub send_loaded : Console → ℕ → Option ℕ → Run → Option Json → Answer × World
unfolding send_command commanded
send_loaded env now by r none = (server_error, r.world)
send_loaded env now by r (some command) =
    commanded env now command by r.device (send_command r.device command r.world)

-- device_command_view, behind the lookup
unfoldable pub post_command : Console → ℕ → Option ℕ → Dict String → Run → Answer × World
unfolding form_text send_loaded
post_command env now by form r =
    let text = env.strip (form_text "command" "" form) in
    if is_empty text
    then (bad_request "Empty command.", r.world)
    else send_loaded env now by r (command_of text (env.loads text))
