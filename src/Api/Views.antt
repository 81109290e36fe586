-- ===== src/Api/Views.antt =====
-- The three views of web/api/views.py, behind the key check.
use sensor_server.Prelude.{
  ℕ, String, Bool, not, ◌&&◌, ◌||◌, Option, none, some, List, [], ◌∷◌, length, leb, any, select,
  map, ◌==◌, if◌then◌else◌,
}
use sensor_server.Text.{is_empty}
use sensor_server.Value.{Float, round, Dict, get}
use sensor_server.Store
use sensor_server.Store.{Device, effective_name, BatteryStatus}
use sensor_server.World.{SensorReading}
use sensor_server.Api.Range.{
  Reader, Range, window, bad_range, raised, param, parse_limit, parse_range,
}
use sensor_server.World.Order.{order_by}
use sensor_server.Api.Page.{cut_page, key_le}

-- A row of readings_hourly or readings_daily, which TimescaleDB keeps.
pub record Bucket : Type 0 where
  pub bucket : ℕ
  pub device_id : String
  pub metric : String
  pub avg : Option Float
  pub least : Option Float
  pub greatest : Option Float
  pub samples : ℕ

pub record Page (A : Type 0) : Type 0 where
  pub count : ℕ
  pub has_more : Bool
  pub rows : List A

pub data Reply (A : Type 0) : Type 0 where
  page : Page A → Reply A
  bad_request : String → Reply A
  not_found : String → Reply A
  server_error : Reply A

-- What the views read.
pub record Source : Type 0 where
  pub devices : List Device
  pub readings : List SensorReading
  pub hourly : List Bucket
  pub daily : List Bucket
  -- The collation of the database.
  pub text_le : String → String → Bool

unfoldable pub is_approved_id : List Device → String → Bool
unfolding any
is_approved_id devices id = any (λ d. (d.device_id == id) && d.is_approved) devices

-- _approved_device_ids
unfoldable pub approved_device_ids : List Device → List String
unfolding select
approved_device_ids devices = map (λ d. d.device_id) (select (λ d. d.is_approved) devices)

-- _resolve_devices: `none` is its error response
unfoldable pub resolve_devices : List Device → Dict String → Option (List String)
unfolding param is_approved_id approved_device_ids
resolve_devices devices query =
    let id = param "device_id" query in
    if is_empty id
    then some (approved_device_ids devices)
    else if not (is_approved_id devices id)
    then none
    else some (id ∷ [])

-- The filter of a query: the devices, the window and the metric, "" for all of them.
unfoldable pub matches : List String → ℕ → ℕ → String → ℕ × String × String → Bool
unfolding any
matches ids start end metric (time, device, name) =
    any (λ id. id == device) ids
    && leb start time
    && leb time end
    && (is_empty metric || (name == metric))

module _ {A : Type 0} where
  -- The rows of one page, behind the checks of the range and of the devices.
  unfoldable pub fetch :
      (String → String → Bool)
      → (A → ℕ × String × String)
      → List A
      → List String
      → ℕ
      → ℕ
      → String
      → ℕ
      → List A × Bool
  unfolding matches select order_by cut_page key_le
  fetch text_le key rows ids start end metric limit = cut_page limit (
      order_by (λ a b. key_le text_le (key a) (key b))
        (select (λ a. matches ids start end metric (key a)) rows))

  abbrev pub page_of : List A × Bool → Reply A
  page_of (rows, more) = page (record { count = length rows; has_more = more; rows = rows })

  abbrev pub for_devices :
      (String → String → Bool)
      → (A → ℕ × String × String)
      → List A
      → ℕ
      → ℕ
      → String
      → ℕ
      → Option (List String)
      → Reply A
  for_devices text_le key rows start end metric limit none =
      not_found "Unknown or unapproved device."
  for_devices text_le key rows start end metric limit (some ids) =
      page_of (fetch text_le key rows ids start end metric limit)

  abbrev pub in_range :
      (String → String → Bool)
      → (A → ℕ × String × String)
      → List A
      → String
      → ℕ
      → Option (List String)
      → Range
      → Reply A
  in_range text_le key rows metric limit ids (bad_range detail) = bad_request detail
  in_range text_le key rows metric limit ids raised = server_error
  in_range text_le key rows metric limit ids (window start end) =
      for_devices text_le key rows start end metric limit ids

  -- The common part of readings_view and aggregates_view.
  unfoldable pub listing :
      Reader → ℕ → Source → (A → ℕ × String × String) → List A → Dict String → Reply A
  unfolding parse_range parse_limit resolve_devices param fetch
  listing env now src key rows query =
      in_range src.text_le key rows (param "metric" query) (parse_limit env query)
        (resolve_devices src.devices query) (parse_range env now query)

abbrev pub reading_key : SensorReading → ℕ × String × String
reading_key r = (r.time, r.device_id, r.metric)

abbrev pub bucket_key : Bucket → ℕ × String × String
bucket_key b = (b.bucket, b.device_id, b.metric)

-- readings_view
unfoldable pub readings_view : Reader → ℕ → Source → Dict String → Reply SensorReading
unfolding listing
readings_view env now src query = listing env now src reading_key src.readings query

unfoldable pub rounded : Option Float → Option Float
unfolding round
rounded none = none
rounded (some x) = some (round x 4)

abbrev pub shown_bucket : Bucket → Bucket
shown_bucket b = record b {
  avg = rounded b.avg;
  least = rounded b.least;
  greatest = rounded b.greatest;
}

abbrev pub shown_page : Reply Bucket → Reply Bucket
shown_page (page p) =
    page (record { count = p.count; has_more = p.has_more; rows = map shown_bucket p.rows })
shown_page (bad_request detail) = bad_request detail
shown_page (not_found detail) = not_found detail
shown_page server_error = server_error

-- AGGREGATE_TABLES.get(resolution)
abbrev pub aggregate_table : Source → String → Option (List Bucket)
aggregate_table src resolution =
    if resolution == "hourly"
    then some src.hourly
    else if resolution == "daily"
    then some src.daily
    else none

unfoldable pub aggregates_of :
    Reader → ℕ → Source → Dict String → Option (List Bucket) → Reply Bucket
unfolding listing
aggregates_of env now src query none = bad_request "'resolution' must be 'hourly' or 'daily'."
aggregates_of env now src query (some rows) = shown_page (listing env now src bucket_key rows query)

-- aggregates_view
unfoldable pub aggregates_view : Reader → ℕ → Source → Dict String → Reply Bucket
unfolding get aggregates_of
aggregates_view env now src query =
    aggregates_of env now src query
      (aggregate_table src (elim (get "resolution" query) [ none ↦ "hourly" | some v ↦ v ]))

-- One entry of devices_view.
pub record ApiDevice : Type 0 where
  pub device_id : String
  pub device_type : String
  pub display_name : String
  pub location : String
  pub location_type : String
  pub is_online : Bool
  pub last_seen : Option ℕ
  pub publish_interval : ℕ
  pub hardware_id : String
  pub hw_code : String
  pub hw_rev : Option ℕ
  pub ota_capable : Bool
  pub fw_version : String
  pub battery_percent : Option Float
  pub battery_status : Option BatteryStatus
  pub needs_firmware_update : Bool
  pub is_legacy_firmware : Bool
  pub metrics : List String
  pub units : Dict String

abbrev pub list_or_empty {ℓ} : {A : Type ℓ} → Option (List A) → List A
list_or_empty none = []
list_or_empty (some xs) = xs

abbrev pub text_or_empty : Option String → String
text_or_empty none = ""
text_or_empty (some s) = s

unfoldable pub api_device : ℕ → Device → ApiDevice
unfolding effective_name Store.is_online Store.battery_status Store.needs_firmware_update
    Store.is_legacy_firmware
api_device now d = record {
  device_id = d.device_id;
  device_type = d.device_type;
  display_name = effective_name d;
  location = d.location;
  location_type = d.location_type;
  is_online = Store.is_online now d;
  last_seen = d.last_seen;
  publish_interval = d.publish_interval;
  hardware_id = d.hardware_id;
  hw_code = text_or_empty d.hardware_code;
  hw_rev = d.hw_rev;
  ota_capable = d.ota_capable;
  fw_version = d.fw_version;
  battery_percent = d.battery_percent;
  battery_status = Store.battery_status d;
  needs_firmware_update = Store.needs_firmware_update d;
  is_legacy_firmware = Store.is_legacy_firmware d;
  metrics = list_or_empty d.capabilities.metrics;
  units = list_or_empty d.capabilities.units;
}

-- devices_view, in the order of the ids that Device.Meta gives
unfoldable pub devices_view : ℕ → Source → List ApiDevice
unfolding select order_by api_device
devices_view now src = map (api_device now) (
    order_by (λ d e. src.text_le d.device_id e.device_id) (select (λ d. d.is_approved) src.devices))
