-- ===== src/Store.antt =====
-- The database and the outside world that the handlers read and write: web/devices/models.py,
-- web/readings/models.py, and the messages sent over MQTT and the channel layer.
use sensor_server.Prelude.{
  ℕ, ◌+◌, ◌*◌, String, Bool, true, false, not, ◌&&◌, ◌||◌, Option, none, some, List, [], ◌∷◌, ltb,
  if◌then◌else◌,
}
use sensor_server.Text.{is_empty}
use sensor_server.Value.{Json, Fields, Float, Dict, float_le}

-- Timestamps are in microseconds; `total_seconds()` counts them exactly.
abbrev pub second : ℕ
second = 1000000

-- ALERT_LEVEL_CHOICES; `clear` is ""
pub data AlertLevel : Type 0 where
  clear warning error : AlertLevel

-- DIAG_LEVEL_CHOICES
pub data DiagLevel : Type 0 where
  ok info warning error : DiagLevel

pub record Param : Type 0 where
  pub name : String
  pub type : String

-- The JSON object `Device.capabilities`, by its known keys.
pub record Capabilities : Type 0 where
  pub metrics : Option (List String)
  pub units : Option (Dict String)
  pub commands : Option (List String)
  pub command_params : Option (Dict (List Param))

abbrev pub no_capabilities : Capabilities
no_capabilities = record { metrics = none; units = none; commands = none; command_params = none }

pub record Device : Type 0 where
  pub device_id : String
  pub device_type : String
  pub display_name : String
  pub location : String
  pub config : Json
  pub last_seen : Option ℕ
  pub is_approved : Bool
  pub hardware_id : String
  pub hardware_code : Option String
  pub hw_rev : Option ℕ
  pub ota_capable : Bool
  pub diag_capable : Bool
  pub calibration : Dict Json
  pub fw_version : String
  pub battery_percent : Option Float
  pub capabilities : Capabilities
  pub publish_interval : ℕ
  pub alert_level : AlertLevel
  pub alert_message : String
  pub alert_updated_at : Option ℕ
  pub diag_requested_at : Option ℕ
  pub capabilities_requested_at : Option ℕ
  pub guest_visible_metrics : List String
  pub location_type : String
  pub battery_cell_count : ℕ

-- The column defaults, and the two values that `get_or_create` gives.
unfoldable pub new_device : String → String → Device
new_device device_id device_type = record {
  device_id = device_id;
  device_type = device_type;
  display_name = "";
  location = "";
  config = Json.dict Fields.end;
  last_seen = none;
  is_approved = false;
  hardware_id = "";
  hardware_code = none;
  hw_rev = none;
  ota_capable = false;
  diag_capable = false;
  calibration = [];
  fw_version = "";
  battery_percent = none;
  capabilities = no_capabilities;
  publish_interval = 0;
  alert_level = clear;
  alert_message = "";
  alert_updated_at = none;
  diag_requested_at = none;
  capabilities_requested_at = none;
  guest_visible_metrics = [];
  location_type = "";
  battery_cell_count = 1;
}

-- DEFAULT_OFFLINE_TIMEOUT
abbrev pub default_offline_timeout : ℕ
default_offline_timeout = 300

-- CAPABILITIES_RESPONSE_TIMEOUT
abbrev pub capabilities_response_timeout : ℕ
capabilities_response_timeout = 60

abbrev pub low_battery_threshold : ℕ
low_battery_threshold = 20

abbrev pub critical_battery_threshold : ℕ
critical_battery_threshold = 5

-- Device.effective_name
unfoldable pub effective_name : Device → String
effective_name d = if is_empty d.display_name then d.device_id else d.display_name

-- The local `timeout` of Device.is_online, in seconds.
unfoldable pub offline_timeout : Device → ℕ
offline_timeout d =
    if ltb 0 d.publish_interval then d.publish_interval * 3 else default_offline_timeout

-- Device.is_online
unfoldable pub is_online : ℕ → Device → Bool
unfolding offline_timeout
is_online now d = elim d.last_seen [
  | none ↦ false
  | some seen ↦ ltb now (seen + offline_timeout d * second)
]

abbrev pub nonempty {ℓ} : {A : Type ℓ} → List A → Bool
nonempty [] = false
nonempty (x ∷ xs) = true

-- Device.has_reported_capabilities
unfoldable pub has_reported_capabilities : Device → Bool
has_reported_capabilities d = elim d.capabilities.metrics [ none ↦ false | some ms ↦ nonempty ms ]

pub data BatteryStatus : Type 0 where
  critical low ok : BatteryStatus

-- Device.battery_status
unfoldable pub battery_status : Device → Option BatteryStatus
unfolding float_le
battery_status d = elim d.battery_percent [
  | none ↦ none
  | some percent ↦
      if float_le percent critical_battery_threshold
      then some critical
      else if float_le percent low_battery_threshold
      then some low
      else some BatteryStatus.ok
]

-- Device.is_battery_low
unfoldable pub is_battery_low : Device → Bool
unfolding battery_status
is_battery_low d = elim (battery_status d) [
  | none ↦ false
  | some s ↦ elim s [ critical ↦ true | low ↦ true | ok ↦ false ]
]

abbrev pub is_some {ℓ} : {A : Type ℓ} → Option A → Bool
is_some none = false
is_some (some a) = true

-- Device.needs_firmware_update
unfoldable pub needs_firmware_update : Device → Bool
unfolding has_reported_capabilities
needs_firmware_update d =
    if has_reported_capabilities d
    then not (is_some d.hardware_code) || is_empty d.fw_version
    else false

-- Device.is_legacy_firmware
unfoldable pub is_legacy_firmware : Device → Bool
unfolding has_reported_capabilities
is_legacy_firmware d =
    if has_reported_capabilities d
    then not d.ota_capable && not (is_some d.hardware_code)
    else false

-- Device.supports_diag
unfoldable pub supports_diag : Device → Bool
supports_diag d = d.diag_capable
