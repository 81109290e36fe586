-- ===== src/Mqtt/Ack.antt =====
-- `handle_ack_message` of web/mqtt_bridge/services.py.
use sensor_server.Prelude.{
  ℕ, String, Bool, false, not, ◌&&◌, ◌||◌, Option, none, some, List, [], ◌∷◌, leb, eqb, select,
  if◌then◌else◌,
}
use sensor_server.Value.{Json, Dict, Python, get, get_or, put, is_text, is_number, truthy}
use sensor_server.Store.{Device, is_some}
use sensor_server.World.{
  World, Run, CommandLog, success, failed, save, mark, pending_with, update_where,
}
use sensor_server.Mqtt.Payload.{
  Outcome, handled, rejected, raised, invalid_format, no_matching_command, Handler, decode,
  with_device,
}
use sensor_server.Mqtt.Calibration.{rounded}

abbrev is_present_number : Option Json → Bool
is_present_number none = false
is_present_number (some v) = is_number v

abbrev put_offset : String → Option Json → Dict Json → Option (Dict Json)
put_offset key none updates = none
put_offset key (some x) updates = some (put key x updates)

-- One of the three offsets: `key` in the message, `cal_key` in the mirror.
unfoldable pub add_offset :
    Python → Dict Json → String → String → Option (Dict Json) → Option (Dict Json)
unfolding get is_number rounded put get_or
add_offset py fields key cal_key none = none
add_offset py fields key cal_key (some updates) =
    if is_present_number (get key fields)
    then put_offset cal_key (rounded py 2 (get_or key Json.null fields)) updates
    else some updates

unfoldable pub legacy_updates : Python → Dict Json → Option (Dict Json)
unfolding add_offset
legacy_updates py fields =
    add_offset py fields "press" "cal_press"
      (add_offset py fields "humi" "cal_humi" (add_offset py fields "temp" "cal_temp" (some [])))

-- mirror.update(updates)
unfoldable pub update_mirror : Dict Json → Dict Json → Dict Json
unfolding put
update_mirror mirror [] = mirror
update_mirror mirror ((k, v) ∷ updates) = update_mirror (put k v mirror) updates

abbrev pub copy_calibration : Device → Device → Device
copy_calibration d row = record row { calibration = d.calibration }

abbrev pub store_offsets : Run → Option (Dict Json) → Outcome × World
store_offsets r none = (raised, r.world)
store_offsets r (some []) = (handled, r.world)
store_offsets r (some (u ∷ us)) =
    let d = record r.device { calibration = update_mirror r.device.calibration (u ∷ us) } in
    (handled, save copy_calibration d r.world)

-- The legacy calibration response.
unfoldable pub legacy_calibration : Python → Dict Json → Run → Outcome × World
unfolding legacy_updates update_mirror save
legacy_calibration py fields r = store_offsets r (legacy_updates py fields)

-- order_by("-sent_at").first(): of two at one time, the later row
unfoldable pub latest : List CommandLog → Option CommandLog
latest [] = none
latest (c ∷ cs) = elim (latest cs) [
  | none ↦ some c
  | some e ↦ if leb c.sent_at e.sent_at then some e else some c
]

abbrev pub text_or_empty : Json → String
text_or_empty (Json.str s) = s
text_or_empty _ = ""

abbrev pub mark_matched : ℕ → Json → Json → World → Option CommandLog → Outcome × World
mark_matched now status message w none = (rejected no_matching_command, w)
mark_matched now status message w (some c) = (
  handled,
  record w {
    commands =
        update_where (λ e. eqb e.pk c.pk)
          (mark (if is_text status "ok" then success else failed) (text_or_empty message) now)
          w.commands;
  },
)

-- The most recent pending command with the acknowledged action reaches its end.
unfoldable pub resolve_ack : ℕ → Json → Json → Json → Run → Outcome × World
unfolding latest select pending_with mark update_where is_text
resolve_ack now action status message r =
    mark_matched now status message r.world
      (latest (select (pending_with r.device.device_id action) r.world.commands))

abbrev pub ack_action : Dict Json → Json
ack_action fields = get_or "action" (Json.str "") fields

abbrev pub ack_status : Dict Json → Json
ack_status fields = get_or "status" (Json.str "") fields

-- `not action and "temp" in data`
unfoldable pub is_legacy : Dict Json → Bool
unfolding get get_or truthy
is_legacy fields = not (truthy (ack_action fields)) && is_some (get "temp" fields)

-- `action == "ota_update" and status == "start"`
unfoldable pub is_ota_start : Dict Json → Bool
unfolding get_or is_text
is_ota_start fields =
    is_text (ack_action fields) "ota_update" && is_text (ack_status fields) "start"

-- `not action or status not in ("ok", "error")`
unfoldable pub is_malformed : Dict Json → Bool
unfolding get_or truthy is_text
is_malformed fields =
    not (truthy (ack_action fields))
    || not (is_text (ack_status fields) "ok" || is_text (ack_status fields) "error")

unfoldable pub ack_body : Python → ℕ → Dict Json → Run → Outcome × World
unfolding legacy_calibration resolve_ack is_legacy is_ota_start is_malformed get_or
ack_body py now fields r =
    if is_legacy fields
    then legacy_calibration py fields r
    else if is_ota_start fields
    then (handled, r.world)
    else if is_malformed fields
    then (rejected invalid_format, r.world)
    else resolve_ack now (ack_action fields) (ack_status fields)
        (get_or "message" (Json.str "") fields) r

-- handle_ack_message
unfoldable pub handle_ack_message : Handler
unfolding decode with_device ack_body
handle_ack_message py now device_type device_id payload w =
    with_device (decode py payload) device_id (ack_body py now) w
