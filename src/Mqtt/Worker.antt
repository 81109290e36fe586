-- ===== src/Mqtt/Worker.antt =====
-- `_on_message` of web/mqtt_bridge/management/commands/mqtt_worker.py, and the topics of
-- web/mqtt_bridge/topics.py.
use sensor_server.Prelude.{ℕ, String, Option, none, some, List, [], ◌∷◌, ◌==◌, if◌then◌else◌}
use sensor_server.Value.{Python}
use sensor_server.World.{World}
use sensor_server.Mqtt.Payload.{Outcome, rejected, bad_topic, unknown_message_type, Handler}
use sensor_server.Mqtt.Topic.{Topic, parse_topic}
use sensor_server.Mqtt.Sensor.{handle_sensor_message}
use sensor_server.Mqtt.HealthStatus.{handle_status_message}
use sensor_server.Mqtt.Capabilities.{handle_capabilities_message}
use sensor_server.Mqtt.CommandList.{handle_commands_message}
use sensor_server.Mqtt.Calibration.{handle_calibration_message}
use sensor_server.Mqtt.Diag.{handle_diag_message}
use sensor_server.Mqtt.Ack.{handle_ack_message}

-- The seven message types, by the handler that takes them.
pub data Kind : Type 0 where
  sensors status capabilities commands calibration diag ack : Kind

-- handlers.get(msg_type)
unfoldable pub kind_of : String → Option Kind
kind_of t =
    if t == "sensors"
    then some sensors
    else if t == "status"
    then some status
    else if t == "capabilities"
    then some capabilities
    else if t == "commands"
    then some commands
    else if t == "calibration"
    then some calibration
    else if t == "diag"
    then some diag
    else if t == "ack"
    then some ack
    else none

unfoldable pub handler : Kind → Handler
handler sensors = handle_sensor_message
handler status = handle_status_message
handler capabilities = handle_capabilities_message
handler commands = handle_commands_message
handler calibration = handle_calibration_message
handler diag = handle_diag_message
handler ack = handle_ack_message

abbrev pub handle : Python → ℕ → Topic → Option Kind → List ℕ → World → Outcome × World
handle py now t none payload w = (rejected unknown_message_type, w)
handle py now t (some k) payload w = handler k py now t.device_type t.device_id payload w

abbrev pub dispatch : Python → ℕ → Option Topic → List ℕ → World → Outcome × World
dispatch py now none payload w = (rejected bad_topic, w)
dispatch py now (some t) payload w = handle py now t (kind_of t.msg_type) payload w

-- _on_message; an exception of a handler is logged, and what it wrote stays.
unfoldable pub on_message : Python → ℕ → String → List ℕ → World → Outcome × World
unfolding parse_topic kind_of
on_message py now topic payload w = dispatch py now (parse_topic topic) payload w

-- One message off the broker.
pub record Delivery : Type 0 where
  pub time : ℕ
  pub topic : String
  pub payload : List ℕ

-- The messages that the worker has taken, in their order.
unfoldable pub serve : Python → List Delivery → World → World
unfolding on_message
serve py [] w = w
serve py (m ∷ ms) w = serve py ms (on_message py m.time m.topic m.payload w).1
