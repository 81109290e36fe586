-- ===== src/Mqtt/Effects.antt =====
-- What a message for one device may do to the world, as a relation with a constructor for each kind
-- of write. The handlers of the bridge are shown to stay inside it, and what holds of every write
-- is proved in the modules below.
pub mod Closure
pub mod Frame
pub mod Lifecycle
pub mod Devices
pub mod Records
pub mod Keys
use sensor_server.Prelude.{
  ℕ, suc, ◌≤◌, String, ◌≡◌, Bool, true, false, Option, none, some, List, [], ◌∷◌, ◌++◌, All,
}
use sensor_server.Text.{len}
use sensor_server.Value.{Json}
use sensor_server.Store.{Device, AlertLevel, clear, new_device}
use sensor_server.World.{
  World, Message, Event, CommandLog, Status, pending, DiagLog, SensorReading, is_terminal,
  find_device, update_device, update_where, mqtt_publish, mark, log_status, create_command,
  group_send,
}
use sensor_server.Mqtt.Sensor.{valid_metric, canonical_metric}

abbrev pub AtMost : ℕ → Option ℕ → Type 0
AtMost bound none = Unit
AtMost bound (some n) = n ≤ bound

-- The bounds of the columns that messages and the edit form fill, the range of the edited cell count,
-- and no leftovers of an alert that is clear.
pub record IsValid (d : Device) : Type 0 where
  pub quiet : d.alert_level ≡ clear → (d.alert_message ≡ "") × (d.alert_updated_at ≡ none)
  pub message_fits : len d.alert_message ≤ 256
  pub hardware_id_fits : len d.hardware_id ≤ 256
  pub fw_version_fits : len d.fw_version ≤ 32
  pub device_type_fits : len d.device_type ≤ 64
  pub hw_rev_fits : AtMost 32767 d.hw_rev
  pub interval_fits : d.publish_interval ≤ 86400
  pub display_name_fits : len d.display_name ≤ 128
  pub location_fits : len d.location ≤ 128
  pub location_type_fits : len d.location_type ≤ 16
  pub cells_fit : d.battery_cell_count ≤ 10

-- The row of a device, if there is one, is approved.
abbrev pub IsApprovedRow : Option Device → Type 0
IsApprovedRow none = ⊥
IsApprovedRow (some d) = d.is_approved ≡ true

abbrev pub IsApproved : String → World → Type 0
IsApproved id w = IsApprovedRow (find_device id w.devices)

-- A reading of the device at the time of the message, under the canonical name of a valid metric.
pub record IsReading (now : ℕ) (id : String) (s : SensorReading) : Type 0 where
  pub raw : String
  pub is_valid : valid_metric raw ≡ true
  pub is_canonical : s.metric ≡ canonical_metric raw
  pub at_time : s.time ≡ now
  pub of_device : s.device_id ≡ id

-- A queued one-shot command: neither retained nor fire-and-forget.
pub record IsOneShot (m : Message) : Type 0 where
  pub not_retained : m.retain ≡ false
  pub queued : m.qos ≡ 1

-- A test that selects only pending commands of the device.
abbrev pub SelectsPending : String → (CommandLog → Bool) → List CommandLog → Type 0
SelectsPending id test cs = All (λ c. test c ≡ true → (c.device ≡ id) × (c.status ≡ pending)) cs

pub data Effect (now : ℕ) (id : String) : World → World → Type 0 where
  saves :
      {w : World} (f : Device → Device) (row : Device)
      → find_device id w.devices ≡ some row
      → ((d : Device) → (f d).device_id ≡ d.device_id)
      → (f row).is_approved ≡ row.is_approved
      → (IsValid row → IsValid (f row))
      → Effect now id w (record w { devices = update_device id f w.devices })
  discovers :
      {w : World} (device_type : String)
      → find_device id w.devices ≡ none
      → len device_type ≤ 64
      → Effect now id w (record w { devices = w.devices ++ new_device id device_type ∷ [] })
  sends : {w : World} (m : Message) → IsOneShot m → Effect now id w (mqtt_publish m w).1
  marks :
      {w : World} (status : Status) (message : String) (test : CommandLog → Bool)
      → is_terminal status ≡ true
      → SelectsPending id test w.commands
      → Effect now id w
          (record w { commands = update_where test (mark status message now) w.commands })
  creates :
      {w : World} (d : Device) (command : Json) (sent_by : Option ℕ)
      → d.device_id ≡ id
      → Effect now id w (create_command now d command sent_by w)
  logs_status : {w : World} (d : Device) → d.device_id ≡ id → Effect now id w (log_status now d w)
  logs_diag :
      {w : World} (s : DiagLog)
      → s.device ≡ id
      → Effect now id w (record w { diag_logs = w.diag_logs ++ s ∷ [] })
  notifies : {w : World} (e : Event) → Effect now id w (group_send e w)
  stores :
      {w : World} (readings : List SensorReading)
      → IsApproved id w
      → All (IsReading now id) readings
      → Effect now id w (record w { readings = w.readings ++ readings })

-- A sequence of writes.
pub data Effects (now : ℕ) (id : String) (w : World) : World → Type 0 where
  done : Effects now id w w
  also : {u v : World} → Effects now id w u → Effect now id u v → Effects now id w v
