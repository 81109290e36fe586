-- ===== src/Mqtt/Capabilities.antt =====
-- `handle_capabilities_message` of web/mqtt_bridge/services.py: one function for each reported key,
-- then the handler in the order of its steps.
use sensor_server.Prelude.{
  ℕ, String, ℤ, pos, abs, eqb_ℤ, Bool, true, false, ◌&&◌, ◌||◌, Option, none, some, List, [], ◌∷◌,
  ltb, leb, any, ◌==◌, if◌then◌else◌,
}
use sensor_server.Text.{len, is_empty, safe_identifier_re, fw_version_re, hw_code_re}
use sensor_server.Value.{
  Json, finite, Dict, get_or, entries, float_le, float_gt, float_eq, truncate,
}
use sensor_server.Store.{Device, AlertLevel, Capabilities, nonempty}
use sensor_server.World.{World, Run, success, save, log_status}
use sensor_server.Mqtt.Payload.{raised, Outcome, handled, Handler, decode, with_device}
use sensor_server.Mqtt.Alert.{no_capabilities_alert, clear_alert, copy_alert}
use sensor_server.Mqtt.Requests.{
  resolve_capability_requests, resolve_ota_updates, repush_calibration,
}
use sensor_server.Mqtt.CommandList.{read_params}

-- `id`
unfoldable pub hardware_id_of : Json → String → String
hardware_id_of (Json.str id) old = if leb (len id) 256 then id else old
hardware_id_of _ old = old

-- `hw`: HardwareCode.objects.filter(pk=hw_code).first()
unfoldable pub hardware_code_of : List String → Json → Option String
unfolding hw_code_re any
hardware_code_of codes (Json.str code) =
    if hw_code_re code && any (λ c. c == code) codes then some code else none
hardware_code_of codes _ = none

-- `hwrev`
unfoldable pub hw_rev_of : Json → Option ℕ → Option ℕ
hw_rev_of (Json.int (pos n)) old = if leb n 65535 then some n else old
hw_rev_of _ old = old

-- `ota` and `diag`: a Boolean, or 0 or 1
unfoldable pub flag_of : Json → Bool → Bool
flag_of (Json.bool b) old = b
flag_of (Json.int n) old = if eqb_ℤ n (pos 0) then false else if eqb_ℤ n (pos 1) then true else old
flag_of _ old = old

-- `cal == 0 or cal is False`
unfoldable pub store_empty : Json → Bool
unfolding float_eq
store_empty (Json.bool false) = true
store_empty (Json.int n) = eqb_ℤ n (pos 0)
store_empty (Json.float x) = float_eq x (finite (pos 0) 0)
store_empty _ = false

-- `fw`
unfoldable pub fw_version_of : Json → String → String
unfolding fw_version_re
fw_version_of (Json.str fw) old =
    if leb (len fw) 32 && ((fw == "") || fw_version_re fw) then fw else old
fw_version_of _ old = old

abbrev pub whole_seconds : Option ℤ → ℕ → ℕ
whole_seconds none old = old
whole_seconds (some n) old = abs n

-- `intrvl`: `isinstance(True, int)` holds, and `int()` truncates
unfoldable pub publish_interval_of : Json → ℕ → ℕ
unfolding float_gt float_le truncate
publish_interval_of (Json.bool true) old = 1
publish_interval_of (Json.int (pos n)) old = if ltb 0 n && leb n 86400 then n else old
publish_interval_of (Json.float x) old =
    if float_gt x 0 && float_le x 86400 then whole_seconds (truncate x) old else old
publish_interval_of _ old = old

-- [k for k in d if SAFE_IDENTIFIER_RE.match(k)]
unfoldable pub safe_keys : Dict Json → List String
unfolding safe_identifier_re
safe_keys [] = []
safe_keys ((k, v) ∷ d) = let rest = safe_keys d in if safe_identifier_re k then k ∷ rest else rest

abbrev unit_text : Json → Option String
unit_text (Json.str v) = if leb (len v) 16 then if is_empty v then none else some v else none
unit_text _ = none

abbrev push_unit : String → Option String → Dict String → Dict String
push_unit k none d = d
push_unit k (some v) d = (k, v) ∷ d

-- The units of the metrics that have one.
unfoldable pub safe_units : Dict Json → Dict String
unfolding safe_identifier_re
safe_units [] = []
safe_units ((k, v) ∷ d) =
    let rest = safe_units d in if safe_identifier_re k then push_unit k (unit_text v) rest else rest

-- `metrics`
unfoldable pub with_metrics : Json → Capabilities → Capabilities
unfolding safe_keys safe_units entries
with_metrics (Json.dict fs) c = record c {
  metrics = some (safe_keys (entries fs));
  units = some (safe_units (entries fs));
}
with_metrics _ c = c

-- `cmds`
unfoldable pub with_commands : Json → Capabilities → Capabilities
unfolding safe_keys read_params entries
with_commands (Json.dict fs) c = record c {
  commands = some (safe_keys (entries fs));
  command_params = some (read_params (entries fs) []);
}
with_commands _ c = c

-- The device with the reported identity and capabilities.
unfoldable pub identified : List String → Dict Json → Device → Device
unfolding hardware_id_of hardware_code_of hw_rev_of flag_of fw_version_of publish_interval_of
    with_metrics with_commands get_or
identified codes fields d = record d {
  hardware_id = hardware_id_of (get_or "id" (Json.str "") fields) d.hardware_id;
  hardware_code = hardware_code_of codes (get_or "hw" (Json.str "") fields);
  hw_rev = hw_rev_of (get_or "hwrev" Json.null fields) d.hw_rev;
  ota_capable = flag_of (get_or "ota" Json.null fields) d.ota_capable;
  diag_capable = flag_of (get_or "diag" Json.null fields) d.diag_capable;
  fw_version = fw_version_of (get_or "fw" (Json.str "") fields) d.fw_version;
  publish_interval =
      publish_interval_of (get_or "intrvl" (Json.int (pos 0)) fields) d.publish_interval;
  capabilities =
      with_commands (get_or "cmds" Json.null fields)
        (with_metrics (get_or "metrics" Json.null fields) d.capabilities);
  capabilities_requested_at = none;
}

abbrev is_error : AlertLevel → Bool
is_error AlertLevel.error = true
is_error _ = false

unfoldable pub had_timeout_alert : Device → Bool
had_timeout_alert d = is_error d.alert_level && (d.alert_message == no_capabilities_alert)

-- The timeout alert is cleared and logged; no event is sent.
unfoldable pub clear_timeout_alert : ℕ → Run → Run
unfolding had_timeout_alert log_status
clear_timeout_alert now r =
    let d = clear_alert r.device in
    if had_timeout_alert r.device
    then record { device = d; world = log_status now d r.world }
    else r

abbrev pub copy_identity : Device → Device → Device
copy_identity d row = record (copy_alert d row) {
  hardware_id = d.hardware_id;
  hardware_code = d.hardware_code;
  hw_rev = d.hw_rev;
  ota_capable = d.ota_capable;
  diag_capable = d.diag_capable;
  fw_version = d.fw_version;
  publish_interval = d.publish_interval;
  capabilities = d.capabilities;
  capabilities_requested_at = d.capabilities_requested_at;
}

-- Behind the save: the commands that the message resolves, and the calibration.
unfoldable pub capabilities_saved : ℕ → Bool → Device → World → World
unfolding resolve_capability_requests resolve_ota_updates repush_calibration
capabilities_saved now empty d w =
    let w1 = resolve_ota_updates now d (resolve_capability_requests d success "" now w) in
    if empty && nonempty d.calibration then repush_calibration d w1 else w1

-- The range of a PositiveSmallIntegerField in PostgreSQL, narrower than what the handler lets through.
abbrev pub is_smallint : Option ℕ → Bool
is_smallint none = true
is_smallint (some n) = leb n 32767

unfoldable pub capabilities_body : ℕ → Dict Json → Run → Outcome × World
unfolding identified clear_timeout_alert save capabilities_saved store_empty get_or
capabilities_body now fields r =
    let d = identified r.world.hardware_codes fields r.device in
    let cleared = clear_timeout_alert now (record r { device = d }) in
    if is_smallint d.hw_rev
    then (
      handled,
      capabilities_saved now (store_empty (get_or "cal" Json.null fields)) cleared.device
          (save copy_identity cleared.device cleared.world),
    )
    else (raised, cleared.world)

-- handle_capabilities_message
unfoldable pub handle_capabilities_message : Handler
unfolding decode with_device capabilities_body
handle_capabilities_message py now device_type device_id payload w =
    with_device (decode py payload) device_id (capabilities_body now) w
