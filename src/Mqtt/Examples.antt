-- ===== src/Mqtt/Examples.antt =====
-- Sample data for the modules of Mqtt, and the theorems about them at these data.
pub mod Parts
use sensor_server.Prelude.{
  ℕ, String, ◌≡◌, ◌≢◌, refl, sym, ◌∙◌, ap, ◌⊎◌, Bool, true, false, Option, none, some, List, [],
  ◌∷◌, ◌++◌, pos, All, arith, eqb, if◌then◌else◌, ◌==◌, eq_iff, select, map,
}
use sensor_server.Text.Splitting.{OnePiece}
use sensor_server.Value.{
  Json, Fields, field, end, Dict, Float, finite, Python, Loaded, loaded, malformed, is_number,
}
use sensor_server.Store.{Device, AlertLevel, clear, warning, error, DiagLevel, new_device, second}
use sensor_server.World.{
  World, Run, Message, CommandLog, Status, pending, DiagLog, SensorReading, find_device,
  pending_with,
}
use sensor_server.Mqtt.Payload.{
  Outcome, handled, rejected, invalid_json, no_matching_command, refused,
}
use sensor_server.Mqtt.Topic.{Topic, parse_topic, topic_of_parts}
use sensor_server.Mqtt.Requests.{
  command_topic, calibration_command, repush_calibration, maybe_request_diag, should_poll, action,
  resolve_ota_updates, check_ota_timeouts, runs_target, ota_timeout, flush_pending_commands,
}
use sensor_server.Mqtt.Sensor.{collect, mark_seen, check_capabilities_timeout}
use sensor_server.Mqtt.HealthStatus.{report_status}
use sensor_server.Mqtt.Diag.{report_diag, snapshot, diag_message}
use sensor_server.Mqtt.Ack.{resolve_ack}
use sensor_server.Mqtt.Worker.{Delivery, on_message, serve}
use sensor_server.Mqtt.Effects.{IsOneShot}
use sensor_server.Mqtt.Effects.Frame.{SameFor}
use sensor_server.Mqtt.Effects.Lifecycle.{Evolves}
use sensor_server.Mqtt.Effects.Devices.{approval, AllValid}
use sensor_server.Mqtt.Effects.Records.{Extends}
use sensor_server.Mqtt.Effects.Keys.{IsKeyed}
use sensor_server.Mqtt.Service.{
  NotFor, serve-IsKeyed, serve-SameFor, serve-Evolves, serve-AllValid, serve-approval,
  serve-IsOneShot, serve-unapproved,
}

-- A payload that starts with `{` is the temperature 21, any other is malformed.
abbrev pub sample_loads : List ℕ → Loaded
sample_loads [] = malformed
sample_loads (c ∷ rest) =
    if eqb c b'{' then loaded (Json.dict (field "temp" (Json.int (pos 21)) end)) else malformed

abbrev pub sample_python : Python
sample_python = record { loads = sample_loads; parse_float = λ text. none }

abbrev pub sample_message : Delivery
sample_message = record { time = 1000; topic = "thermo/d1/sensors"; payload = 123 ∷ [] }

abbrev pub sample_command : CommandLog
sample_command = record {
  pk = 4;
  device = "d1";
  command = action "reboot";
  sent_at = 700;
  sent_by = some 1;
  status = pending;
  response_message = "";
  acked = false;
  acked_at = none;
}

-- A server that knows no device yet; a command of a forgotten device is on its log.
abbrev pub empty_world : World
empty_world = record {
  devices = [];
  commands = sample_command ∷ [];
  status_logs = [];
  diag_logs = [];
  readings = [];
  hardware_codes = [];
  next_pk = 5;
  outbox = [];
  events = [];
  broker = λ n. true;
  attempts = 0;
}

empty_world-IsKeyed : IsKeyed empty_world
empty_world-IsKeyed = record { ascending = (omega arith, omega arith) }

empty_world-AllValid : AllValid empty_world
unfolding find_device
empty_world-AllValid = record { row = λ j d h. cc }

named_device : Option Topic → String
named_device none = ""
named_device (some t) = t.device_id

sample_message-NotFor : NotFor "d2" sample_message
unfolding parse_topic named_device
sample_message-NotFor t h e = ground (arith, eq_iff "d2" "d1", e ∙ sym (ap named_device h))

serve-SameFor_example :
    SameFor "d2" empty_world (serve sample_python (sample_message ∷ []) empty_world)
serve-SameFor_example =
    serve-SameFor sample_python "d2" (sample_message ∷ []) empty_world empty_world-IsKeyed
      (sample_message-NotFor, tt)

serve-Evolves_example :
    Evolves empty_world.commands
      (serve sample_python (sample_message ∷ sample_message ∷ []) empty_world).commands
serve-Evolves_example =
    serve-Evolves sample_python (sample_message ∷ sample_message ∷ []) empty_world
      empty_world-IsKeyed

serve-AllValid_example : AllValid (serve sample_python (sample_message ∷ []) empty_world)
serve-AllValid_example =
    serve-AllValid sample_python (sample_message ∷ []) empty_world empty_world-IsKeyed
      empty_world-AllValid

serve-approval_example :
    approval (find_device "d1" (serve sample_python (sample_message ∷ []) empty_world).devices)
    ≡ approval (find_device "d1" empty_world.devices)
serve-approval_example =
    serve-approval sample_python "d1" (sample_message ∷ []) empty_world empty_world-IsKeyed

serve-IsOneShot_example :
    Extends IsOneShot empty_world.outbox
      (serve sample_python (sample_message ∷ []) empty_world).outbox
serve-IsOneShot_example =
    serve-IsOneShot sample_python (sample_message ∷ []) empty_world empty_world-IsKeyed

serve-unapproved_example :
    select
      (λ s. s.device_id == "d1")
      (serve sample_python (sample_message ∷ []) empty_world).readings
    ≡ select (λ (s : SensorReading). s.device_id == "d1") empty_world.readings
unfolding find_device
serve-unapproved_example =
    serve-unapproved sample_python "d1" (sample_message ∷ []) empty_world empty_world-IsKeyed refl
