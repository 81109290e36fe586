-- ===== src/Mqtt/Requests.antt =====
-- The commands that the server sends to devices, and the lifecycle of the logged ones: the helpers
-- of web/mqtt_bridge/services.py above the handlers.
use sensor_server.Prelude.{
  ℕ, zero, suc, ◌+◌, ◌*◌, ◌/◌, ◌%◌, String, Bool, true, false, not, ◌&&◌, Option, none, some, List,
  [], ◌∷◌, ltb, leb, eqb, ◌==◌, select, max, if◌then◌else◌,
}
use sensor_server.Text.{concat, suffix, starts_with}
use sensor_server.Value.{Json, json_eq, field, end, Dict, get, entries, truthy, is_text, is_number}
use sensor_server.Store.{
  Device, clear, second, default_offline_timeout, is_online, is_battery_low, supports_diag,
}
use sensor_server.World.{
  World, Run, CommandLog, Status, success, timeout, save, mqtt_publish, create_command, mark,
  command_action, pending_with, update_where,
}

-- _alert_reassert_window, in seconds
unfoldable pub alert_reassert_window : Device → ℕ
alert_reassert_window d =
    if ltb 0 d.publish_interval then d.publish_interval * 3 else default_offline_timeout

-- _diag_poll_cooldown, in tenths of a second
unfoldable pub diag_poll_cooldown : Device → ℕ
diag_poll_cooldown d =
    if ltb 0 d.publish_interval then d.publish_interval * 11 else default_offline_timeout * 10

unfoldable pub command_topic : Device → String
unfolding concat
command_topic d = concat d.device_type (concat "/" (concat d.device_id "/command"))

-- {"action": name}
abbrev pub action : String → Json
action name = Json.dict (field "action" (Json.str name) end)

unfoldable pub send_command : Device → Json → World → Bool × World
unfolding command_topic mqtt_publish
send_command d payload w =
    mqtt_publish (record { topic = command_topic d; payload = payload; retain = false; qos = 1 }) w

abbrev pub copy_capabilities_requested_at : Device → Device → Device
copy_capabilities_requested_at d row = record row {
  capabilities_requested_at = d.capabilities_requested_at;
}

-- What `request_capabilities` does behind its publication.
unfoldable pub capabilities_requested : ℕ → Option ℕ → Bool → Run → Run
unfolding save create_command
capabilities_requested now sent_by log_command r =
    let d = record r.device { capabilities_requested_at = some now } in
    let w = save copy_capabilities_requested_at d r.world in
    record {
      device = d;
      world =
          if log_command then create_command now d (action "request_capabilities") sent_by w else w;
    }

-- request_capabilities
unfoldable pub request_capabilities : ℕ → Option ℕ → Bool → Run → Run
unfolding send_command capabilities_requested
request_capabilities now sent_by log_command r =
    let (taken, w) = send_command r.device (action "request_capabilities") r.world in
    let sent = record r { world = w } in
    if taken then capabilities_requested now sent_by log_command sent else sent

-- request_commands
unfoldable pub request_commands : Run → Run
unfolding send_command
request_commands r = record r {
  world = (send_command r.device (action "request_commands") r.world).1;
}

-- request_calibration
unfoldable pub request_calibration : Run → Run
unfolding send_command
request_calibration r = record r {
  world = (send_command r.device (action "request_calibration") r.world).1;
}

-- request_status
unfoldable pub request_status : Run → Run
unfolding send_command
request_status r = record r { world = (send_command r.device (action "get_status") r.world).1 }

-- request_diag
unfoldable pub request_diag : Run → Run
unfolding send_command
request_diag r = record r { world = (send_command r.device (action "get_diag") r.world).1 }

abbrev pub copy_diag_requested_at : Device → Device → Device
copy_diag_requested_at d row = record row { diag_requested_at = d.diag_requested_at }

abbrev pub has_alert : Device → Bool
has_alert d = elim d.alert_level [ clear ↦ false | _ ↦ true ]

-- Has the last poll been less than the cooldown ago?
unfoldable pub in_cooldown : ℕ → Device → Bool
unfolding diag_poll_cooldown
in_cooldown now d = elim d.diag_requested_at [
  | none ↦ false
  | some polled ↦ ltb (now * 10) (polled * 10 + diag_poll_cooldown d * second)
]

-- The guards of _maybe_request_diag.
unfoldable pub should_poll : ℕ → Device → Bool
unfolding in_cooldown supports_diag is_online is_battery_low
should_poll now d =
    has_alert d
    && supports_diag d
    && is_online now d
    && not (is_battery_low d)
    && not (in_cooldown now d)

unfoldable pub diag_polled : ℕ → Run → Run
unfolding save
diag_polled now r =
    let d = record r.device { diag_requested_at = some now } in
    record { device = d; world = save copy_diag_requested_at d r.world }

-- _maybe_request_diag
unfoldable pub maybe_request_diag : ℕ → Run → Run
unfolding should_poll request_diag diag_polled
maybe_request_diag now r = if should_poll now r.device then diag_polled now (request_diag r) else r

-- The command of _repush_calibration for one entry of the mirror.
unfoldable pub calibration_command : String → Json → Json
unfolding starts_with suffix
calibration_command key value =
    if starts_with key "cal_"
    then Json.dict (
        field "action" (Json.str "set_offset")
          (field "metric" (Json.str (suffix 4 key)) (field "value" value end)))
    else Json.dict (
        field "action" (Json.str "set_calibration")
          (field "key" (Json.str key) (field "value" value end)))

unfoldable pub repush_entries : Device → Dict Json → World → World
unfolding send_command calibration_command is_number
repush_entries d [] w = w
repush_entries d ((key, value) ∷ mirror) w =
    repush_entries d mirror
      (if is_number value then (send_command d (calibration_command key value) w).1 else w)

-- _repush_calibration
unfoldable pub repush_calibration : Device → World → World
unfolding repush_entries
repush_calibration d w = repush_entries d d.calibration w

-- The `ver` key of a command.
unfoldable pub command_version : Json → Option Json
unfolding get entries
command_version (Json.dict fs) = get "ver" (entries fs)
command_version _ = none

-- `target and device.fw_version == target`
unfoldable pub runs_target : Device → CommandLog → Bool
unfolding command_version truthy is_text
runs_target d c = elim (command_version c.command) [
  | none ↦ false
  | some target ↦ truthy target && is_text target d.fw_version
]

-- _resolve_ota_updates
unfoldable pub resolve_ota_updates : ℕ → Device → World → World
unfolding pending_with runs_target mark update_where concat
resolve_ota_updates now d w = record w {
  commands =
      update_where (λ c. pending_with d.device_id (Json.str "ota_update") c && runs_target d c)
        (mark success (concat "Running " d.fw_version) now) w.commands;
}

-- str(d) of a digit
abbrev pub digit : ℕ → String
digit d =
    if eqb d 0
    then "0"
    else if eqb d 1
    then "1"
    else if eqb d 2
    then "2"
    else if eqb d 3
    then "3"
    else if eqb d 4
    then "4"
    else if eqb d 5
    then "5"
    else if eqb d 6
    then "6"
    else if eqb d 7
    then "7"
    else if eqb d 8
    then "8"
    else "9"

unfoldable pub show_fuel : ℕ → ℕ → String → String
show_fuel zero n text = text
show_fuel (suc fuel) n text =
    let rest = show_fuel fuel (n / 10) (concat (digit (n % 10)) text) in
    if ltb n 10 then concat (digit n) text else rest

-- str(n); n has at most n + 1 digits
unfoldable pub show : ℕ → String
unfolding show_fuel concat
show n = show_fuel (suc n) n ""

-- OTA_UPDATE_TIMEOUT
abbrev pub ota_update_timeout : ℕ
ota_update_timeout = 600

-- max(OTA_UPDATE_TIMEOUT, 3 * publish_interval), in seconds
unfoldable pub ota_timeout : Device → ℕ
ota_timeout d = max ota_update_timeout (3 * d.publish_interval)

-- _check_ota_timeouts
unfoldable pub check_ota_timeouts : ℕ → Device → World → World
unfolding ota_timeout pending_with mark update_where concat show
check_ota_timeouts now d w = record w {
  commands =
      update_where
        (λ c.
          pending_with d.device_id (Json.str "ota_update") c
          && ltb (c.sent_at + ota_timeout d * second) now)
        (mark timeout (concat "No confirmation within " (concat (show (ota_timeout d)) "s")) now)
        w.commands;
}

-- _resolve_capability_requests
unfoldable pub resolve_capability_requests : Device → Status → String → ℕ → World → World
unfolding pending_with mark update_where
resolve_capability_requests d status message when w = record w {
  commands =
      update_where (pending_with d.device_id (Json.str "request_capabilities"))
        (mark status message when) w.commands;
}

-- order_by("sent_at"), stable
unfoldable pub insert_by_sent_at : CommandLog → List CommandLog → List CommandLog
insert_by_sent_at c [] = c ∷ []
insert_by_sent_at c (e ∷ es) =
    if leb c.sent_at e.sent_at then c ∷ e ∷ es else e ∷ insert_by_sent_at c es

unfoldable pub order_by_sent_at : List CommandLog → List CommandLog
unfolding insert_by_sent_at
order_by_sent_at [] = []
order_by_sent_at (c ∷ cs) = insert_by_sent_at c (order_by_sent_at cs)

-- .exclude(command__action="ota_update"): NOT (command -> 'action' = '"ota_update"'), which is NULL
-- for a command without that key, so that its row is left out too
unfoldable pub is_not_excluded : CommandLog → Bool
unfolding command_action json_eq
is_not_excluded c = elim (command_action c.command) [
  | none ↦ false
  | some v ↦ not (json_eq v (Json.str "ota_update"))
]

-- filter(device=..., acked=False), without the excluded
unfoldable pub awaits_flush : String → CommandLog → Bool
unfolding is_not_excluded
awaits_flush device c = (c.device == device) && not c.acked && is_not_excluded c

unfoldable pub publish_commands : Device → List CommandLog → World → World
unfolding send_command
publish_commands d [] w = w
publish_commands d (c ∷ cs) w = publish_commands d cs (send_command d c.command w).1

-- flush_pending_commands
unfoldable pub flush_pending_commands : Device → World → World
unfolding publish_commands order_by_sent_at awaits_flush select
flush_pending_commands d w =
    publish_commands d (order_by_sent_at (select (awaits_flush d.device_id) w.commands)) w
