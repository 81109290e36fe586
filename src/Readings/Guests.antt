-- ===== src/Readings/Guests.antt =====
-- What guests are shown by the dashboard and by the chart of a device.
use sensor_server.Prelude.{String, ◌==◌, ◌≡◌, Bool, true, ◌&&◌, none, some, List, All, select}
use sensor_server.Value.{Float, Dict, get}
use sensor_server.Store.{Device}
use sensor_server.World.{SensorReading, find_device}
use sensor_server.Accounts.Users.{Accounts}
use sensor_server.Api.Views.{Source, Bucket}
use sensor_server.Readings.Window.{Window}
use sensor_server.Readings.Charts.{ChartReply, chart, is_visible}

-- The entries of a device that a guest may see.
abbrev pub AllVisible : Device → Dict Float → Type 0
AllVisible d entries = All (λ e. is_visible d e.0 ≡ true) entries

-- A device of the dashboard, as a guest sees it.
abbrev pub IsShown : Device × Dict Float → Type 0
IsShown (d, entries) = (d.is_approved ≡ true) × AllVisible d entries

-- The rows of one device for one metric: of the readings, and of an aggregate.
abbrev pub of_series : String → String → SensorReading → Bool
of_series id metric r = (r.device_id == id) && (r.metric == metric)

abbrev pub of_buckets : String → String → Bucket → Bool
of_buckets id metric b = (b.device_id == id) && (b.metric == metric)

-- The tables without all other rows.
abbrev pub narrowed : String → String → Source → Source
narrowed id metric src = record src {
  readings = select (of_series id metric) src.readings;
  hourly = select (of_buckets id metric) src.hourly;
  daily = select (of_buckets id metric) src.daily;
}

-- A chart that a guest gets is of an approved device that shows the metric to guests.
abbrev pub IsPermitted : List Device → String → String → ChartReply → Type 0
IsPermitted devices id metric (chart c) =
    (d : Device) × (find_device id devices ≡ some d)
    × (d.is_approved ≡ true)
    × (is_visible d metric ≡ true)
IsPermitted devices id metric _ = Unit

unfoldable pub asked_metric : Dict String → String
unfolding get
asked_metric query = elim (get "metric" query) [ none ↦ "temperature" | some m ↦ m ]
