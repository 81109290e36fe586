-- ===== src/World.antt =====
-- The tables of web/devices/models.py, web/readings/models.py and web/ota/models.py, and what goes
-- out: MQTT messages to the broker and events to the channel layer. Each operation takes the state
-- and returns the new one. The channel layer does not fail, and the database only where a
-- handler or a view says so; a publication may.
pub mod Tables
pub mod Order
use sensor_server.Prelude.{
  ℕ, zero, suc, ◌+◌, ◌*◌, String, Bool, true, false, not, ◌&&◌, Option, none, some, List, [], ◌∷◌,
  ◌++◌, map, ltb, eqb, ◌==◌, find, select, if◌then◌else◌, ℤ,
}
use sensor_server.Text.{prefix}
use sensor_server.Value.{Json, Fields, field, Float, Dict, get, entries, is_text, json_eq}
use sensor_server.Store.{Device, AlertLevel, clear, DiagLevel, effective_name, new_device}

-- CommandLog.STATUS_CHOICES
pub data Status : Type 0 where
  pending success failed timeout : Status

pub record CommandLog : Type 0 where
  pub pk : ℕ
  pub device : String
  pub command : Json
  pub sent_at : ℕ
  pub sent_by : Option ℕ
  pub status : Status
  pub response_message : String
  pub acked : Bool
  pub acked_at : Option ℕ

pub record StatusLog : Type 0 where
  pub time : ℕ
  pub device : String
  pub alert_level : AlertLevel
  pub alert_message : String

pub record DiagLog : Type 0 where
  pub time : ℕ
  pub device : String
  pub level : DiagLevel
  pub message : String
  pub reset_cause : Option ℕ
  pub boot : Option ℕ
  pub miss : Option ℕ
  pub wake_ms : Option ℕ
  pub seq : Option ℕ
  pub pubfail : Option ℕ
  pub rssi : Option ℤ
  pub heap : Option ℕ
  pub battery_percent : Option ℕ
  pub txsent : Option ℕ
  pub txok : Option ℕ

pub record SensorReading : Type 0 where
  pub time : ℕ
  pub device_id : String
  pub metric : String
  pub value : Float

pub record Message : Type 0 where
  pub topic : String
  pub payload : Json
  pub retain : Bool
  pub qos : ℕ

pub data Event : Type 0 where
  device_status : String → AlertLevel → String → String → Event
  sensor_reading : String → String → String → Float → ℕ → String → Event

pub record World : Type 0 where
  pub devices : List Device
  pub commands : List CommandLog
  pub status_logs : List StatusLog
  pub diag_logs : List DiagLog
  pub readings : List SensorReading
  -- The primary keys of HardwareCode.
  pub hardware_codes : List String
  pub next_pk : ℕ
  pub outbox : List Message
  pub events : List Event
  -- Does the broker take the n-th publication? `attempts` counts them.
  pub broker : ℕ → Bool
  pub attempts : ℕ

-- Device.objects.filter(device_id=...).first()
unfoldable pub find_device : String → List Device → Option Device
find_device id [] = none
find_device id (d ∷ ds) = if d.device_id == id then some d else find_device id ds

unfoldable pub update_device : String → (Device → Device) → List Device → List Device
update_device id f [] = []
update_device id f (d ∷ ds) = (if d.device_id == id then f d else d) ∷ update_device id f ds

-- device.save(update_fields=...): `copy d row` is the row with the listed fields of `d`.
unfoldable pub save : (Device → Device → Device) → Device → World → World
save copy d w = record w { devices = update_device d.device_id (copy d) w.devices }

-- _mqtt_publish: false stands for its exception.
unfoldable pub mqtt_publish : Message → World → Bool × World
mqtt_publish m w =
    if w.broker w.attempts
    then (true, record w { outbox = w.outbox ++ m ∷ []; attempts = suc w.attempts })
    else (false, record w { attempts = suc w.attempts })

-- DeviceStatusLog.objects.create of the current alert
unfoldable pub log_status : ℕ → Device → World → World
log_status now d w = record w {
  status_logs =
      w.status_logs
      ++ record {
        time = now;
        device = d.device_id;
        alert_level = d.alert_level;
        alert_message = d.alert_message;
      }
        ∷ [];
}

unfoldable pub group_send : Event → World → World
group_send e w = record w { events = w.events ++ e ∷ [] }

-- CommandLog.objects.create(device=..., command=..., sent_by=...): the status is pending
unfoldable pub create_command : ℕ → Device → Json → Option ℕ → World → World
create_command now d command sent_by w = record w {
  commands =
      w.commands
      ++ record {
        pk = w.next_pk;
        device = d.device_id;
        command = command;
        sent_at = now;
        sent_by = sent_by;
        status = pending;
        response_message = "";
        acked = false;
        acked_at = none;
      }
        ∷ [];
  next_pk = suc w.next_pk;
}

-- `status in TERMINAL_STATUSES`
abbrev pub is_terminal : Status → Bool
is_terminal pending = false
is_terminal _ = true

abbrev pub is_pending : Status → Bool
is_pending pending = true
is_pending _ = false

-- CommandLog.mark, on the row
unfoldable pub mark : Status → String → ℕ → CommandLog → CommandLog
unfolding prefix
mark status message when c = record c {
  status = status;
  response_message = prefix 256 message;
  acked = is_terminal status;
  acked_at = some when;
}

-- The `action` key of a command, as the JSON lookup `command__action` reads it.
unfoldable pub command_action : Json → Option Json
unfolding get entries
command_action (Json.dict fs) = get "action" (entries fs)
command_action _ = none

unfoldable pub has_action : Json → CommandLog → Bool
unfolding command_action json_eq
has_action action c = elim (command_action c.command) [ none ↦ false | some v ↦ json_eq v action ]

-- filter(device=..., status=PENDING, command__action=...)
unfoldable pub pending_with : String → Json → CommandLog → Bool
unfolding has_action
pending_with device action c = (c.device == device) && is_pending c.status && has_action action c

-- Change each row that a test selects.
unfoldable pub update_where {ℓ} : {A : Type ℓ} → (A → Bool) → (A → A) → List A → List A
update_where test change [] = []
update_where test change (x ∷ xs) = (if test x then change x else x) ∷ update_where test change xs

-- A device in memory, beside the database.
pub record Run : Type 0 where
  pub device : Device
  pub world : World
