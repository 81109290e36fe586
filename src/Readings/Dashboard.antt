-- ===== src/Readings/Dashboard.antt =====
-- The dashboard of web/readings/views.py: the latest readings of each device, what a guest sees of
-- them, and the averages of the two groups.
use sensor_server.Prelude.{
  ℕ, ◌+◌, ◌-◌, ◌*◌, ◌^◌, ℤ, pos, negsuc, pos_part, neg_part, abs, with_sign_of, String, Bool, not,
  ◌&&◌, none, some, List, [], ◌∷◌, ◌++◌, length, map, select, ltb, leb, ◌==◌, if◌then◌else◌,
}
use sensor_server.Value.{Float, finite, pos_inf, neg_inf, nan, round, div_round, Dict, get, put}
use sensor_server.Store.{Device}
use sensor_server.World.{SensorReading}
use sensor_server.World.Order.{order_by}
use sensor_server.Readings.Charts.{cells, per_cell, is_visible}

-- ORDER BY metric, time DESC
abbrev pub latest_first : (String → String → Bool) → SensorReading → SensorReading → Bool
latest_first text_le r s =
    if r.metric == s.metric then leb s.time r.time else text_le r.metric s.metric

-- DISTINCT ON: the first row of each metric, in ordered rows
unfoldable pub first_of_each : List SensorReading → Dict Float
unfolding select round
first_of_each [] = []
first_of_each (r ∷ rs) =
    (r.metric, round r.value 1) ∷ select (λ e. not (e.0 == r.metric)) (first_of_each rs)

-- latest_readings.get(device_id, {})
unfoldable pub latest_readings : (String → String → Bool) → List SensorReading → String → Dict Float
unfolding select order_by first_of_each
latest_readings text_le rows id =
    first_of_each (order_by (latest_first text_le) (select (λ r. r.device_id == id) rows))

-- The voltage per cell, of an entry.
unfoldable pub per_cell_entry : ℕ → String × Float → String × Float
unfolding per_cell
per_cell_entry n (metric, value) =
    (metric, if (metric == "bat_voltage") && ltb 1 n then per_cell n value else value)

-- device.latest_metrics, of _annotate_devices_with_metrics
unfoldable pub latest_metrics :
    (String → String → Bool) → List SensorReading → Bool → Device → Dict Float
unfolding latest_readings select is_visible per_cell per_cell_entry
latest_metrics text_le rows guest_only d =
    let found = latest_readings text_le rows d.device_id in
    let shown = if guest_only then select (λ e. is_visible d e.0) found else found in
    map (per_cell_entry (cells d.battery_cell_count)) shown

-- a + b, of integers
abbrev pub add_ℤ : ℤ → ℤ → ℤ
add_ℤ a b =
    let up = pos_part a + pos_part b in
    let down = neg_part a + neg_part b in
    if leb down up then pos (up - down) else negsuc (down - up - 1)

-- a + b, of floats
unfoldable pub add_float : Float → Float → Float
unfolding with_sign_of
add_float (finite n k) (finite m j) =
    finite (add_ℤ (with_sign_of n (abs n * 10 ^ j)) (with_sign_of m (abs m * 10 ^ k))) (k + j)
add_float nan _ = nan
add_float _ nan = nan
add_float pos_inf neg_inf = nan
add_float neg_inf pos_inf = nan
add_float pos_inf _ = pos_inf
add_float _ pos_inf = pos_inf
add_float neg_inf _ = neg_inf
add_float _ neg_inf = neg_inf

-- sum(values)
unfoldable pub sum_from : Float → List Float → Float
unfolding add_float
sum_from x [] = x
sum_from x (v ∷ vs) = sum_from (add_float x v) vs

-- round(x / n, 1)
unfoldable pub mean_of : Float → ℕ → Float
unfolding div_round with_sign_of
mean_of (finite m k) n = finite (with_sign_of m (div_round (abs m * 10) (10 ^ k * n))) 1
mean_of x n = x

-- groups[grp][metric].append(value), for the entries of one device
unfoldable pub gather : Dict Float → Dict (List Float) → Dict (List Float)
unfolding get put
gather [] group = group
gather ((metric, value) ∷ entries) group =
    gather entries (
      put metric (elim (get metric group) [ none ↦ value ∷ [] | some vs ↦ vs ++ value ∷ [] ]) group)

unfoldable pub gather_group :
    String → List (Device × Dict Float) → Dict (List Float) → Dict (List Float)
unfolding gather
gather_group name [] group = group
gather_group name ((d, metrics) ∷ ds) group =
    gather_group name ds (if d.location_type == name then gather metrics group else group)

unfoldable pub average : String × List Float → String × Float
unfolding sum_from mean_of
average (metric, values) = (metric, mean_of (sum_from (finite (pos 0) 0) values) (length values))

-- averages[grp], if there are any
abbrev pub averages_of : String → Dict (List Float) → Dict (Dict Float)
averages_of name [] = []
averages_of name (e ∷ es) = (name, map average (e ∷ es)) ∷ []

-- _compute_averages
unfoldable pub compute_averages : List (Device × Dict Float) → Dict (Dict Float)
unfolding gather_group
compute_averages devices =
    averages_of "indoor" (gather_group "indoor" devices [])
    ++ averages_of "outdoor" (gather_group "outdoor" devices [])

-- The cell counts of the devices with more than one cell.
unfoldable pub cell_counts : List Device → Dict ℕ
unfolding select
cell_counts devices =
    map (λ d. (d.device_id, cells d.battery_cell_count))
      (select (λ d. ltb 1 (cells d.battery_cell_count)) devices)

-- What dashboard_view shows, apart from the names of the metrics: the approved devices with their
-- metrics, the averages, and the cell counts. dashboard_cards_view shows the first two.
pub record Dashboard : Type 0 where
  pub devices : List (Device × Dict Float)
  pub averages : Dict (Dict Float)
  pub cell_counts : Dict ℕ

unfoldable pub dashboard_view :
    (String → String → Bool) → List Device → List SensorReading → Bool → Dashboard
unfolding select order_by latest_metrics compute_averages cell_counts
dashboard_view text_le devices rows guest_only =
    let approved =
      order_by (λ d e. text_le d.device_id e.device_id) (select (λ d. d.is_approved) devices) in
    let shown = map (λ d. (d, latest_metrics text_le rows guest_only d)) approved in
    record {
      devices = shown;
      averages = compute_averages shown;
      cell_counts = cell_counts approved;
    }
