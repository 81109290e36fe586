-- ===== src/Readings/Overview.antt =====
-- `overview_view` of web/readings/views.py: the metrics, and the devices that report each of them.
use sensor_server.Prelude.{
  String, Bool, not, ◌&&◌, none, some, List, [], ◌∷◌, ◌++◌, map, select, ◌==◌, if◌then◌else◌,
}
use sensor_server.Text.{is_empty, by_codes}
use sensor_server.Value.{Float, Dict, get, put}
use sensor_server.Store.{Device, effective_name}
use sensor_server.World.{SensorReading}
use sensor_server.World.Order.{order_by}
use sensor_server.Api.Views.{list_or_empty}
use sensor_server.Readings.Charts.{is_visible}
use sensor_server.Readings.Dashboard.{latest_readings}
use sensor_server.Readings.Metrics.{Shown, get_metrics_display_map}

-- The devices of a metric on the overview page, for whom it is visible.
unfoldable pub devices_of : Bool → String → List (Device × Dict Float) → List String
unfolding get is_visible
devices_of guest_only metric [] = []
devices_of guest_only metric ((d, latest) ∷ ds) =
    let rest = devices_of guest_only metric ds in
    elim (get metric latest) [
      | none ↦ rest
      | some v ↦ if guest_only && not (is_visible d metric) then rest else d.device_id ∷ rest
    ]

-- Each text once, in the order of its first place.
unfoldable pub distinct : List String → List String
unfolding select
distinct [] = []
distinct (x ∷ xs) = x ∷ select (λ y. not (y == x)) (distinct xs)

abbrev pub keys_of : List (Device × Dict Float) → List String
keys_of [] = []
keys_of ((d, latest) ∷ ds) = map (λ e. e.0) latest ++ keys_of ds

-- An entry of metrics_devices, if there is a device.
abbrev pub metric_entry : String → List String → Dict (List String)
metric_entry metric [] = []
metric_entry metric (id ∷ ids) = (metric, id ∷ ids) ∷ []

unfoldable pub metrics_devices :
    Bool → List (Device × Dict Float) → List String → Dict (List String)
unfolding devices_of
metrics_devices guest_only ds [] = []
metrics_devices guest_only ds (m ∷ ms) =
    metric_entry m (devices_of guest_only m ds) ++ metrics_devices guest_only ds ms

-- if k not in units: units[k] = v
unfoldable pub add_units : Dict String → Dict String → Dict String
unfolding get
add_units [] units = units
add_units ((k, v) ∷ more) units =
    add_units more (elim (get k units) [ none ↦ units ++ (k, v) ∷ [] | some u ↦ units ])

unfoldable pub units_of : List Device → Dict String → Dict String
unfolding add_units
units_of [] units = units
units_of (d ∷ ds) units = units_of ds (add_units (list_or_empty d.capabilities.units) units)

-- The units of the capabilities take precedence.
unfoldable pub merge_units : Dict String → Dict Shown → Dict Shown
unfolding get put
merge_units [] display = display
merge_units ((m, u) ∷ units) display = merge_units units (elim (get m display) [
  | none ↦ display
  | some s ↦ if is_empty u then display else put m (record s { unit = u }) display
])

pub record Overview : Type 0 where
  pub metrics_devices : Dict (List String)
  pub device_names : Dict String
  pub units : Dict String
  pub metrics_display : Dict Shown
  pub metrics : List String

-- overview_view, behind its role check
unfoldable pub overview_view :
    (String → String)
    → (String → String → Bool)
    → List Device
    → List SensorReading
    → Bool
    → Overview
unfolding select order_by latest_readings distinct metrics_devices units_of get_metrics_display_map
    merge_units effective_name by_codes
overview_view translate text_le devices rows guest_only =
    let approved =
      order_by (λ d e. text_le d.device_id e.device_id) (select (λ d. d.is_approved) devices) in
    let latest = map (λ d. (d, latest_readings text_le rows d.device_id)) approved in
    let found = metrics_devices guest_only latest (order_by text_le (distinct (keys_of latest))) in
    let metrics = order_by by_codes (map (λ e. e.0) found) in
    let units = units_of approved [] in
    record {
      metrics_devices = found;
      device_names = map (λ d. (d.device_id, effective_name d)) approved;
      units = units;
      metrics_display = merge_units units (get_metrics_display_map translate metrics);
      metrics = metrics;
    }
