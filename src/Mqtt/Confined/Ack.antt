-- ===== src/Mqtt/Confined/Ack.antt =====
-- `handle_ack_message` is confined to its device: the row that it marks is the device's own, since
-- primary keys are unique.
use sensor_server.Prelude.{
  ℕ, String, ◌≡◌, refl, Bool, true, false, List, [], ◌∷◌, Option, none, some, All, arith, if_cases,
  select, eqb, if◌then◌else◌,
}
use sensor_server.Value.{Json, Dict, Python, get_or, is_text}
use sensor_server.Store.{Device}
use sensor_server.World.{
  World, Run, CommandLog, success, failed, pending, is_terminal, find_device, pending_with,
}
use sensor_server.Mqtt.Payload.{Outcome, Decoded, decode, decoded, refused, with_device, with_row}
use sensor_server.Mqtt.Ack.{
  update_mirror, copy_calibration, store_offsets, legacy_calibration, latest, text_or_empty,
  mark_matched, resolve_ack, legacy_updates, ack_action, ack_status, is_legacy, is_ota_start,
  is_malformed, ack_body, handle_ack_message,
}
use sensor_server.Mqtt.Effects.{Effects, done}
use sensor_server.Mqtt.Effects.Keys.{IsKeyed, Among-select, latest-Among, key_unique}
use sensor_server.Mqtt.Confined.{
  Found, Found-device_id, save-Reaches, marks-Quiet, pending_with-selects_one,
}

store_offsets-Effects :
    (now : ℕ) (id : String) (r : Run) (o : Option (Dict Json))
    → Found id r
    → Effects now id r.world (store_offsets r o).1
store_offsets-Effects now id r none h = done
store_offsets-Effects now id r (some []) h = done
store_offsets-Effects now id r (some (u ∷ us)) h =
    (save-Reaches copy_calibration
      (record r.device { calibration = update_mirror r.device.calibration (u ∷ us) }) r h
      (λ row. refl) refl refl refl (λ v. ground arith)).effects

if-terminal : (b : Bool) → is_terminal (if b then success else failed) ≡ true
if-terminal true = refl
if-terminal false = refl

mark_matched-Effects :
    (now : ℕ) (id : String) (status message : Json) (w : World) (o : Option CommandLog)
    → ((c : CommandLog)
        → o ≡ some c
        → All (λ e. eqb e.pk c.pk ≡ true → (e.device ≡ id) × (e.status ≡ pending)) w.commands)
    → Effects now id w (mark_matched now status message w o).1
mark_matched-Effects now id status message w none h = done
mark_matched-Effects now id status message w (some c) h =
    (marks-Quiet (if is_text status "ok" then success else failed) (text_or_empty message)
      (λ e. eqb e.pk c.pk) w (if-terminal (is_text status "ok")) (h c refl)).effects

resolve_ack-Effects :
    (now : ℕ) (id : String) (action status message : Json) (r : Run)
    → Found id r
    → IsKeyed r.world
    → Effects now id r.world (resolve_ack now action status message r).1
unfolding resolve_ack
resolve_ack-Effects now id action status message r h keyed =
    mark_matched-Effects now id status message r.world
      (latest (select (pending_with r.device.device_id action) r.world.commands))
      λ c e.
        let test = pending_with r.device.device_id action in
        let found =
          Among-select test c r.world.commands (latest-Among (select test r.world.commands) c e) in
        key_unique 0 r.world.next_pk r.world.commands c
          (λ x. (x.device ≡ id) × (x.status ≡ pending)) keyed.ascending found.0
          (pending_with-selects_one id r.device.device_id action (Found-device_id id r h) c found.1)

ack_body-Effects :
    (py : Python) (now : ℕ) (id : String) (fields : Dict Json) (r : Run)
    → Found id r
    → IsKeyed r.world
    → Effects now id r.world (ack_body py now fields r).1
unfolding ack_body
ack_body-Effects py now id fields r h keyed =
    if_cases (λ (o : Outcome × World). Effects now id r.world o.1) (is_legacy fields)
      (λ _.
        unfold legacy_calibration in store_offsets-Effects now id r (legacy_updates py fields) h)
      (λ _.
        if_cases (λ (o : Outcome × World). Effects now id r.world o.1) (is_ota_start fields)
          (λ _. done)
          (λ _.
            if_cases (λ (o : Outcome × World). Effects now id r.world o.1) (is_malformed fields)
              (λ _. done)
              (λ _.
                resolve_ack-Effects now id (ack_action fields) (ack_status fields)
                  (get_or "message" (Json.str "") fields) r h keyed)))

with_row-keyed :
    (py : Python) (now : ℕ) (id : String) (fields : Dict Json) (w : World) (o : Option Device)
    → find_device id w.devices ≡ o
    → IsKeyed w
    → Effects now id w (with_row fields (ack_body py now) w o).1
with_row-keyed py now id fields w none e keyed = done
with_row-keyed py now id fields w (some d) e keyed =
    ack_body-Effects py now id fields (record { device = d; world = w }) e keyed

with_device-keyed :
    (py : Python) (now : ℕ) (id : String) (m : Decoded) (w : World)
    → IsKeyed w
    → Effects now id w (with_device m id (ack_body py now) w).1
unfolding with_device
with_device-keyed py now id (refused o) w keyed = done
with_device-keyed py now id (decoded fields) w keyed =
    with_row-keyed py now id fields w _ refl keyed

pub handle_ack_message-Effects :
    (py : Python) (now : ℕ) (device_type id : String) (payload : List ℕ) (w : World)
    → IsKeyed w
    → Effects now id w (handle_ack_message py now device_type id payload w).1
unfolding handle_ack_message
handle_ack_message-Effects py now device_type id payload w keyed =
    with_device-keyed py now id (decode py payload) w keyed
