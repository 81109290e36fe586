-- ===== src/Mqtt/Rejection.antt =====
-- Messages that `_on_message` and the handlers of web/mqtt_bridge/services.py turn away.
use sensor_server.Prelude.{
  ℕ, String, ◌≡◌, ◌≢◌, refl, ◌∙◌, ap, Option, none, some, List, arith, eq_iff,
}
use sensor_server.Value.{Json, Dict, Python}
use sensor_server.World.{World, Run, find_device}
use sensor_server.Mqtt.Payload.{Outcome, Decoded, decoded, refused, with_row, with_device}
use sensor_server.Mqtt.Topic.{Topic, parse_topic}
use sensor_server.Mqtt.HealthStatus.{handle_status_message}
use sensor_server.Mqtt.Capabilities.{handle_capabilities_message}
use sensor_server.Mqtt.CommandList.{handle_commands_message}
use sensor_server.Mqtt.Calibration.{handle_calibration_message}
use sensor_server.Mqtt.Diag.{handle_diag_message}
use sensor_server.Mqtt.Ack.{handle_ack_message}
use sensor_server.Mqtt.Worker.{
  Kind, sensors, status, capabilities, commands, calibration, diag, ack, kind_of, handler, handle,
  dispatch, on_message,
}

with_device-unknown :
    (c : Decoded) (id : String) (body : Dict Json → Run → Outcome × World) (w : World)
    → find_device id w.devices ≡ none
    → (with_device c id body w).1 ≡ w
unfolding with_device
with_device-unknown (refused o) id body w h = refl
with_device-unknown (decoded fields) id body w h = ap (λ o. (with_row fields body w o).1) h

module _ (py : Python) (now : ℕ) (payload : List ℕ) (w : World) (t : Topic)
    (h : find_device t.device_id w.devices ≡ none) where
  handler-unknown :
      (k : Kind) → k ≢ sensors → (handler k py now t.device_type t.device_id payload w).1 ≡ w
  unfolding handler
  handler-unknown sensors ne = absurd (ne refl)
  handler-unknown status ne =
      unfold handle_status_message in with_device-unknown _ t.device_id _ w h
  handler-unknown capabilities ne =
      unfold handle_capabilities_message in with_device-unknown _ t.device_id _ w h
  handler-unknown commands ne =
      unfold handle_commands_message in with_device-unknown _ t.device_id _ w h
  handler-unknown calibration ne =
      unfold handle_calibration_message in with_device-unknown _ t.device_id _ w h
  handler-unknown diag ne = unfold handle_diag_message in with_device-unknown _ t.device_id _ w h
  handler-unknown ack ne = unfold handle_ack_message in with_device-unknown _ t.device_id _ w h

  handle-unknown : (k : Option Kind) → k ≢ some sensors → (handle py now t k payload w).1 ≡ w
  handle-unknown none ne = refl
  handle-unknown (some k) ne = handler-unknown k (λ e. ne (ap some e))

kind_of-sensors : (text : String) → kind_of text ≡ some sensors → text ≡ "sensors"
unfolding kind_of
kind_of-sensors text h = ground (arith, eq_iff text "sensors")

-- Sensor data alone makes a device known: any other message for a device that has no row changes
-- nothing.
pub on_message-unknown :
    (py : Python) (now : ℕ) (topic : String) (payload : List ℕ) (w : World) (t : Topic)
    → parse_topic topic ≡ some t
    → find_device t.device_id w.devices ≡ none
    → t.msg_type ≢ "sensors"
    → (on_message py now topic payload w).1 ≡ w
unfolding on_message
on_message-unknown py now topic payload w t parsed h ne =
    ap (λ o. (dispatch py now o payload w).1) parsed
    ∙ handle-unknown py now payload w t h (kind_of t.msg_type)
        (λ e. ne (kind_of-sensors t.msg_type e))
