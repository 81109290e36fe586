-- ===== src/Devices/Pages.antt =====
-- The pages of web/devices/views.py that only read: `_get_device_metrics`, and what
-- `device_list_view`, `device_history_view` and `device_admin_view` show.
use sensor_server.Prelude.{
  ℕ, String, Bool, false, not, ◌||◌, Option, none, some, List, [], leb, map, select, take, ◌==◌,
  if◌then◌else◌,
}
use sensor_server.Text.{by_codes, concat}
use sensor_server.Value.{Json, finite, Dict, get_or}
use sensor_server.Store.{Device, nonempty, is_some}
use sensor_server.World.{World, CommandLog, DiagLog, SensorReading, find_device}
use sensor_server.Prelude.{any, find, pos, ◌∷◌}
use sensor_server.Ota.Catalog.{HardwareRevision, Firmware, Catalog, is_revision}
use sensor_server.Devices.Admin.{compatible_firmwares}
use sensor_server.World.Order.{order_by}
use sensor_server.Accounts.Role.{has_role}
use sensor_server.Accounts.Users.{Accounts, Requester, find_profile, profile_has_role}
use sensor_server.Api.Views.{list_or_empty}
use sensor_server.Readings.Charts.{is_visible}
use sensor_server.Readings.Metrics.{Shown, get_metrics_display_map}
use sensor_server.Readings.Overview.{distinct, merge_units}
use sensor_server.Readings.Timeline.{approved_only}
use sensor_server.Devices.Neighbours.{prev_next_device}

-- DIAG_LOG_LIMIT
abbrev pub diag_log_limit : ℕ
diag_log_limit = 30

-- _get_device_metrics
unfoldable pub device_metrics : (String → String → Bool) → List SensorReading → Device → List String
unfolding select distinct order_by by_codes
device_metrics text_le rows d =
    let found =
      order_by text_le
        (distinct (map (λ r. r.metric) (select (λ r. r.device_id == d.device_id) rows))) in
    if nonempty found then found else order_by by_codes (list_or_empty d.capabilities.metrics)

-- user.is_superuser or user.profile.has_role(role), of one that is logged in
unfoldable pub holds_role : Accounts → Requester → String → Bool
unfolding find_profile has_role
holds_role a none role = false
holds_role a (some u) role = u.is_superuser || profile_has_role role (find_profile u.pk a)

-- device.diag_logs.all()[:DIAG_LOG_LIMIT], the latest first
unfoldable pub recent_diag_logs : String → List DiagLog → List DiagLog
unfolding select order_by
recent_diag_logs id logs =
    take diag_log_limit (order_by (λ l m. leb m.time l.time) (select (λ l. l.device == id) logs))

-- What device_history_view shows.
pub record History : Type 0 where
  pub device : Device
  pub metrics : List String
  pub metrics_display : Dict Shown
  pub is_admin : Bool
  pub diag_logs : List DiagLog
  pub neighbours : Option (String × String)

unfoldable pub history_of :
    (String → String)
    → (String → String → Bool)
    → List Device
    → List SensorReading
    → List DiagLog
    → Accounts
    → Requester
    → Device
    → History
unfolding device_metrics holds_role select is_visible get_metrics_display_map merge_units
    prev_next_device recent_diag_logs
history_of translate text_le devices rows logs a by d =
    let all = device_metrics text_le rows d in
    let metrics = if holds_role a by "resident" then all else select (is_visible d) all in
    let is_admin = holds_role a by "admin" in
    record {
      device = d;
      metrics = metrics;
      metrics_display =
          merge_units (list_or_empty d.capabilities.units)
            (get_metrics_display_map translate metrics);
      is_admin = is_admin;
      diag_logs = if is_admin then recent_diag_logs d.device_id logs else [];
      neighbours = prev_next_device text_le devices d.device_id;
    }

abbrev pub history_found : (Device → History) → Option Device → Option History
history_found show none = none
history_found show (some d) = some (show d)

-- device_history_view, behind its role check; `none` is the 404
unfoldable pub device_history_view :
    (String → String)
    → (String → String → Bool)
    → List Device
    → List SensorReading
    → List DiagLog
    → Accounts
    → Requester
    → String
    → Option History
unfolding find_device history_of
device_history_view translate text_le devices rows logs a by id =
    history_found (history_of translate text_le devices rows logs a by)
      (approved_only (find_device id devices))

-- device_list_view: the pending and the approved devices, in the order of their ids
unfoldable pub device_list_view : (String → String → Bool) → List Device → List Device × List Device
unfolding select order_by
device_list_view text_le devices =
    let ordered = order_by (λ d e. text_le d.device_id e.device_id) devices in
    (select (λ d. not d.is_approved) ordered, select (λ d. d.is_approved) ordered)

-- One line of the calibration table of device_admin_view.
pub record Offset : Type 0 where
  pub key : String
  pub label : String
  pub unit : String
  pub offset : Json

-- CALIBRATION_METRICS
abbrev pub calibration_table : List (String × String × String)
calibration_table =
    ("temp", "Temperature", "°C") ∷ ("humi", "Humidity", "%") ∷ ("press", "Pressure", "hPa") ∷ []

unfoldable pub offset_of : Device → String × String × String → Offset
unfolding get_or concat
offset_of d (key, label, unit) = record {
  key = key;
  label = label;
  unit = unit;
  offset = get_or (concat "cal_" key) (Json.float (finite (pos 0) 1)) d.calibration;
}

-- rev.bat_divider_nominal of the device's revision, if it is registered
abbrev pub nominal_of : List HardwareRevision → Option String → Option ℕ → Json
nominal_of revisions (some c) (some n) = elim (find (is_revision c n) revisions) [
  | none ↦ Json.null
  | some r ↦ r.bat_divider_nominal
]
nominal_of revisions _ _ = Json.null

pub record Divider : Type 0 where
  pub value : Json
  pub nominal : Json

-- The 20 latest commands of a device.
unfoldable pub recent_commands : String → List CommandLog → List CommandLog
unfolding select order_by
recent_commands id commands =
    take 20 (order_by (λ c e. leb e.sent_at c.sent_at) (select (λ c. c.device == id) commands))

-- bool(diag_logs and diag_logs[0].txsent is not None)
abbrev pub confirms_uplink : List DiagLog → Bool
confirms_uplink [] = false
confirms_uplink (l ∷ ls) = is_some l.txsent

-- What device_admin_view shows, beside the device and its neighbours.
pub record AdminPage : Type 0 where
  pub commands : List CommandLog
  pub has_offset_calibration : Bool
  pub has_set_calibration : Bool
  pub calibration_metrics : List Offset
  pub bat_divider : Option Divider
  pub ota_firmwares : List Firmware
  pub diag_logs : List DiagLog
  pub confirm_uplink_on : Bool

-- device_admin_view, behind its role check and the lookup
unfoldable pub device_admin_view : World → Catalog → Device → AdminPage
unfolding any get_or offset_of is_revision find recent_commands recent_diag_logs
    compatible_firmwares
device_admin_view w c d =
    let commands = list_or_empty d.capabilities.commands in
    let has_offset = any (λ k. k == "set_offset") commands in
    let has_set = any (λ k. k == "set_calibration") commands in
    let diag_logs = recent_diag_logs d.device_id w.diag_logs in
    record {
      commands = recent_commands d.device_id w.commands;
      has_offset_calibration = has_offset;
      has_set_calibration = has_set;
      calibration_metrics = if has_offset then map (offset_of d) calibration_table else [];
      bat_divider =
          if has_set
          then some (record {
            value = get_or "bat_divider" Json.null d.calibration;
            nominal = nominal_of c.revisions d.hardware_code d.hw_rev;
          })
          else none;
      ota_firmwares = if d.ota_capable then compatible_firmwares d c.firmwares else [];
      diag_logs = diag_logs;
      confirm_uplink_on = confirms_uplink diag_logs;
    }
