-- ===== src/Mqtt/Confined/Worker.antt =====
-- `_on_message` of web/mqtt_bridge/management/commands/mqtt_worker.py, with every handler: a message
-- writes on behalf of the device of its topic only.
use sensor_server.Prelude.{ℕ, String, ◌≡◌, refl, Option, none, some, List}
use sensor_server.Value.{Python}
use sensor_server.World.{World}
use sensor_server.Mqtt.Topic.{Topic, parse_topic}
use sensor_server.Mqtt.Worker.{
  Kind, sensors, status, capabilities, commands, calibration, diag, ack, kind_of, handler, handle,
  dispatch, on_message,
}
use sensor_server.Mqtt.Effects.{Effects, done}
use sensor_server.Mqtt.Effects.Keys.{IsKeyed}
use sensor_server.Mqtt.Confined.Sensor.{handle_sensor_message-Effects}
use sensor_server.Mqtt.Confined.Reports.{
  handle_status_message-Effects, handle_diag_message-Effects, handle_commands_message-Effects,
  handle_calibration_message-Effects,
}
use sensor_server.Mqtt.Confined.Capabilities.{handle_capabilities_message-Effects}
use sensor_server.Mqtt.Confined.Ack.{handle_ack_message-Effects}

module _ (py : Python) (now : ℕ) (payload : List ℕ) (w : World) (keyed : IsKeyed w) where
  handler-Effects :
      (k : Kind) (t : Topic)
      → Effects now t.device_id w (handler k py now t.device_type t.device_id payload w).1
  unfolding handler
  handler-Effects sensors t =
      handle_sensor_message-Effects py now t.device_type t.device_id payload w
  handler-Effects status t =
      handle_status_message-Effects py now t.device_type t.device_id payload w
  handler-Effects capabilities t =
      handle_capabilities_message-Effects py now t.device_type t.device_id payload w
  handler-Effects commands t =
      handle_commands_message-Effects py now t.device_type t.device_id payload w
  handler-Effects calibration t =
      handle_calibration_message-Effects py now t.device_type t.device_id payload w
  handler-Effects diag t = handle_diag_message-Effects py now t.device_type t.device_id payload w
  handler-Effects ack t =
      handle_ack_message-Effects py now t.device_type t.device_id payload w keyed

  kind-Effects :
      (t : Topic) (o : Option Kind) → Effects now t.device_id w (handle py now t o payload w).1
  kind-Effects t none = done
  kind-Effects t (some k) = handler-Effects k t

  -- What a message does, for the device of its topic.
  pub dispatch-Effects :
      (t : Topic) → Effects now t.device_id w (dispatch py now (some t) payload w).1
  dispatch-Effects t = kind-Effects t (kind_of t.msg_type)

-- The rule for what a message may do: nothing, or the writes for the device of its topic.
pub on_message-cases {ℓ} :
    (py : Python) (now : ℕ) (topic : String) (payload : List ℕ) (w : World) (P : World → Type ℓ)
    → IsKeyed w
    → P w
    → ((t : Topic) (v : World) → parse_topic topic ≡ some t → Effects now t.device_id w v → P v)
    → P (on_message py now topic payload w).1
unfolding on_message
on_message-cases py now topic payload w P keyed nothing writes = by_topic (parse_topic topic) refl
  where
    by_topic : (o : Option Topic) → parse_topic topic ≡ o → P (dispatch py now o payload w).1
    by_topic none h = nothing
    by_topic (some t) h = writes t _ h (dispatch-Effects py now payload w keyed t)
