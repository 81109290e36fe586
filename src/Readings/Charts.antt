-- ===== src/Readings/Charts.antt =====
-- The chart data of web/readings/views.py: `chart_data_view` for one device, and
-- `overview_chart_data_view` for several. Times stay numbers: their printing is not modelled.
use sensor_server.Prelude.{
  ℕ, ◌-◌, ◌*◌, ◌^◌, String, abs, with_sign_of, Bool, not, ◌&&◌, Option, none, some, List, [], ◌∷◌,
  ◌++◌, map, select, any, ltb, leb, eqb, ◌==◌, if◌then◌else◌,
}
use sensor_server.Text.{is_empty, split}
use sensor_server.Value.{Float, finite, round, div_round, Dict, get}
use sensor_server.Store.{Device, second}
use sensor_server.World.{SensorReading, find_device}
use sensor_server.World.Order.{order_by}
use sensor_server.Accounts.Users.{Accounts, Requester}
use sensor_server.Api.Range.{Reader, param, days}
use sensor_server.Api.Views.{Bucket, Source, list_or_empty}
use sensor_server.Readings.Window.{
  Moment, utc, local, Window, instant, parse_time_range, is_guest_only,
}
use sensor_server.Readings.Timeline.{approved_only}

-- One value of a chart, with its device and its time.
pub record Point : Type 0 where
  pub device_id : String
  pub time : ℕ
  pub value : Float

-- (end - start).total_seconds(), in microseconds; `none` is the TypeError of a local and an aware
-- time. A negative span counts as 0: the comparisons below do not tell them apart.
abbrev pub span : Moment → Moment → Option ℕ
span (utc s) (utc e) = some (e - s)
span (local s) (local e) = some (e - s)
span _ _ = none

abbrev pub reading_point : SensorReading → Point
reading_point r = record { device_id = r.device_id; time = r.time; value = r.value }

-- A row of an aggregate has an average, of one reading at least.
abbrev pub bucket_points : Bucket → List Point
bucket_points b = elim b.avg [
  | none ↦ []
  | some x ↦ record { device_id = b.device_id; time = b.bucket; value = round x 2 } ∷ []
]

abbrev pub concat_map {ℓ κ} : {A : Type ℓ} {B : Type κ} → (A → List B) → List A → List B
concat_map f [] = []
concat_map f (x ∷ xs) = f x ++ concat_map f xs

-- ORDER BY device_id, time
abbrev pub point_le : (String → String → Bool) → Point → Point → Bool
point_le text_le p q =
    if p.device_id == q.device_id then leb p.time q.time else text_le p.device_id q.device_id

-- The raw readings of a selection of devices.
unfoldable pub raw_points : Source → (String → Bool) → String → ℕ → ℕ → List Point
unfolding select order_by
raw_points src chosen metric start end = order_by (point_le src.text_le) (
    map reading_point (
      select (λ r. chosen r.device_id && (r.metric == metric) && leb start r.time && leb r.time end)
        src.readings))

unfoldable pub bucket_rows : Source → List Bucket → (String → Bool) → String → ℕ → ℕ → List Point
unfolding select order_by round
bucket_rows src table chosen metric start end = order_by (point_le src.text_le) (
    concat_map bucket_points (
      select
        (λ b. chosen b.device_id && (b.metric == metric) && leb start b.bucket && leb b.bucket end)
        table))

-- The source by the span: raw readings up to 48 hours, hourly averages up to 90 days, else daily.
unfoldable pub points : Source → (String → Bool) → String → ℕ → ℕ → ℕ → List Point
unfolding raw_points bucket_rows
points src chosen metric start end long =
    if leb long (48 * 3600 * second)
    then raw_points src chosen metric start end
    else if leb long (days 90)
    then bucket_rows src src.hourly chosen metric start end
    else bucket_rows src src.daily chosen metric start end

-- _fetch_readings; `none` is an exception
unfoldable pub fetch_readings :
    Reader → Source → (String → Bool) → String → Moment → Moment → Option (List Point)
unfolding points
fetch_readings env src chosen metric start end = elim (span start end) [
  | none ↦ none
  | some long ↦ some (points src chosen metric (instant env start) (instant env end) long)
]

-- round(v / n, 2)
unfoldable pub per_cell : ℕ → Float → Float
unfolding div_round with_sign_of
per_cell n (finite m k) = finite (with_sign_of m (div_round (abs m * 100) (10 ^ k * n))) 2
per_cell n x = x

-- device.battery_cell_count or 1
abbrev pub cells : ℕ → ℕ
cells n = if eqb n 0 then 1 else n

-- The division of the battery voltage by the number of cells.
unfoldable pub divided : String → ℕ → Point → Point
unfolding per_cell
divided metric n p =
    if (metric == "bat_voltage") && ltb 1 (cells n)
    then record p { value = per_cell (cells n) p.value }
    else p

-- (device.capabilities or {}).get("units", {}).get(metric, "")
unfoldable pub unit_of : Device → String → String
unfolding get
unit_of d metric = elim (get metric (list_or_empty d.capabilities.units)) [ none ↦ "" | some u ↦ u ]

pub record Chart : Type 0 where
  pub metric : String
  pub unit : String
  pub points : List Point

pub data ChartReply : Type 0 where
  chart : Chart → ChartReply
  forbidden unknown_device server_error : ChartReply

unfoldable pub chart_of : Device → String → Option (List Point) → ChartReply
unfolding unit_of divided
chart_of d metric none = server_error
chart_of d metric (some ps) = chart (record {
  metric = metric;
  unit = unit_of d metric;
  points = map (divided metric d.battery_cell_count) ps;
})

unfoldable pub chart_in : Reader → Source → Device → String → Window → ChartReply
unfolding fetch_readings chart_of
chart_in env src d metric none = server_error
chart_in env src d metric (some (start, end)) =
    chart_of d metric (fetch_readings env src (λ id. id == d.device_id) metric start end)

-- metric in (device.guest_visible_metrics or [])
unfoldable pub is_visible : Device → String → Bool
unfolding any
is_visible d metric = any (λ m. m == metric) d.guest_visible_metrics

unfoldable pub chart_for :
    Reader → ℕ → Source → Accounts → Requester → String → Dict String → Option Device → ChartReply
unfolding is_guest_only is_visible parse_time_range chart_in
chart_for env now src a by metric query none = unknown_device
chart_for env now src a by metric query (some d) =
    if is_guest_only a by && not (is_visible d metric)
    then forbidden
    else chart_in env src d metric (parse_time_range env now query)

-- chart_data_view, behind its role check
unfoldable pub chart_data_view :
    Reader → ℕ → Source → Accounts → Requester → String → Dict String → ChartReply
unfolding get find_device chart_for
chart_data_view env now src a by id query =
    chart_for env now src a by (elim (get "metric" query) [ none ↦ "temperature" | some m ↦ m ])
      query (approved_only (find_device id src.devices))

-- The unit that the first of some devices names.
unfoldable pub first_unit : List Device → String → List String → String
unfolding find_device unit_of
first_unit devices metric [] = ""
first_unit devices metric (id ∷ ids) =
    let rest = first_unit devices metric ids in
    elim (find_device id devices) [
      | none ↦ rest
      | some d ↦ if is_empty (unit_of d metric) then rest else unit_of d metric
    ]

-- cell_counts.get(did, 1) or 1
unfoldable pub cells_of : List Device → String → ℕ
unfolding find_device
cells_of devices id = elim (find_device id devices) [ none ↦ 1 | some d ↦ d.battery_cell_count ]

abbrev pub add_point : Point → Dict (List Point) → Dict (List Point)
add_point p [] = (p.device_id, p ∷ []) ∷ []
add_point p ((id, qs) ∷ more) =
    if id == p.device_id then (id, p ∷ qs) ∷ more else (p.device_id, p ∷ []) ∷ (id, qs) ∷ more

-- series[did] of the rows, which come in the order of the devices
unfoldable pub series : List Point → Dict (List Point)
series [] = []
series (p ∷ ps) = add_point p (series ps)

pub record Series : Type 0 where
  pub metric : String
  pub unit : String
  pub series : Dict (List Point)

unfoldable pub series_of : Source → List String → String → Option (List Point) → Option Series
unfolding divided cells_of first_unit series
series_of src ids metric none = none
series_of src ids metric (some ps) = some (record {
  metric = metric;
  unit = first_unit src.devices metric ids;
  series = series (map (λ p. divided metric (cells_of src.devices p.device_id) p) ps);
})

unfoldable pub overview_in : Reader → Source → List String → String → Window → Option Series
unfolding fetch_readings any series_of
overview_in env src ids metric none = none
overview_in env src ids metric (some (start, end)) =
    series_of src ids metric
      (fetch_readings env src (λ id. any (λ i. i == id) ids) metric start end)

unfoldable pub overview_of :
    Reader → ℕ → Source → Dict String → String → List String → Option Series
unfolding parse_time_range overview_in
overview_of env now src query metric [] = some (record { metric = metric; unit = ""; series = [] })
overview_of env now src query metric (id ∷ ids) =
    if is_empty metric
    then some (record { metric = metric; unit = ""; series = [] })
    else overview_in env src (id ∷ ids) metric (parse_time_range env now query)

-- overview_chart_data_view, behind its role check; `none` is an exception
unfoldable pub overview_chart_data_view : Reader → ℕ → Source → Dict String → Option Series
unfolding param select split overview_of
overview_chart_data_view env now src query =
    overview_of env now src query (param "metric" query)
      (select (λ d. not (is_empty d)) (split b',' (param "devices" query)))
