-- ===== src/Readings/Metrics.antt =====
-- web/readings/metrics.py: names and units of the known metrics. `translate` is gettext.
use sensor_server.Prelude.{String, none, some, List, [], ◌∷◌}
use sensor_server.Value.{Dict, get, put}

-- METRIC_DISPLAY
abbrev pub metric_display : Dict (String × String)
metric_display =
    ("temperature", ("Temperature", "°C"))
    ∷ ("humidity", ("Humidity", "%"))
    ∷ ("pressure", ("Pressure", "hPa"))
    ∷ ("uv_index", ("UV index", ""))
    ∷ ("lux", ("Luminosity", "lx"))
    ∷ ("rssi", ("RSSI", "dBm"))
    ∷ ("bat_percent", ("Battery", "%"))
    ∷ ("bat_voltage", ("Cell voltage", "V"))
    ∷ []

-- get_metric_label
unfoldable pub get_metric_label : (String → String) → String → String
unfolding get
get_metric_label translate metric = elim (get metric metric_display) [
  | none ↦ metric
  | some (label, unit) ↦ translate label
]

-- get_metric_unit
unfoldable pub get_metric_unit : String → String
unfolding get
get_metric_unit metric = elim (get metric metric_display) [ none ↦ "" | some (label, unit) ↦ unit ]

pub record Shown : Type 0 where
  pub label : String
  pub unit : String

-- The comprehension, behind the entries of the earlier metrics.
unfoldable pub add_shown : (String → String) → Dict Shown → List String → Dict Shown
unfolding get_metric_label get_metric_unit put
add_shown translate shown [] = shown
add_shown translate shown (m ∷ ms) =
    add_shown translate
      (put m (record { label = get_metric_label translate m; unit = get_metric_unit m }) shown) ms

-- get_metrics_display_map
unfoldable pub get_metrics_display_map : (String → String) → List String → Dict Shown
unfolding add_shown
get_metrics_display_map translate metrics = add_shown translate [] metrics
