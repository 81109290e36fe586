-- ===== src/Readings/Timeline.antt =====
-- `status_timeline_view` of web/readings/views.py: the alerts of a device as segments of a window.
use sensor_server.Prelude.{
  ℕ, String, ◌&&◌, Option, none, some, List, [], ◌∷◌, ltb, leb, select, ◌==◌, if◌then◌else◌,
}
use sensor_server.Value.{Dict}
use sensor_server.Store.{Device, AlertLevel, clear, warning, error}
use sensor_server.World.{StatusLog, find_device}
use sensor_server.World.Order.{order_by}
use sensor_server.Api.Range.{Reader}
use sensor_server.Readings.Window.{Window, instant, parse_time_range}

-- The level and the message of an alert.
pub record Alert : Type 0 where
  pub level : AlertLevel
  pub message : String

abbrev pub alert_of : StatusLog → Alert
alert_of l = record { level = l.alert_level; message = l.alert_message }

-- The alert before the first log row.
abbrev pub no_alert : Alert
no_alert = record { level = clear; message = "" }

-- The later of two rows; of two of one time, the second.
abbrev pub later : StatusLog → Option StatusLog → Option StatusLog
later l none = some l
later l (some m) = if leb l.time m.time then some m else some l

-- order_by("-time").first()
unfoldable pub last_log : List StatusLog → Option StatusLog
last_log [] = none
last_log (l ∷ ls) = later l (last_log ls)

abbrev pub alert_or_none : Option StatusLog → Alert
alert_or_none none = no_alert
alert_or_none (some l) = alert_of l

-- The initial state: the last row before the window.
unfoldable pub initial_alert : String → ℕ → List StatusLog → Alert
unfolding last_log select
initial_alert id start logs =
    alert_or_none (last_log (select (λ l. (l.device == id) && ltb l.time start) logs))

-- The rows of the window, by their time.
unfoldable pub window_logs : String → ℕ → ℕ → List StatusLog → List StatusLog
unfolding order_by select
window_logs id start end logs =
    order_by (λ l m. leb l.time m.time)
      (select (λ l. (l.device == id) && leb start l.time && leb l.time end) logs)

pub record Segment : Type 0 where
  pub start : ℕ
  pub end : ℕ
  pub level : String
  pub message : String

-- current_level or "ok"
abbrev pub shown_level : AlertLevel → String
shown_level clear = "ok"
shown_level warning = "warning"
shown_level error = "error"

unfoldable pub segment : ℕ → ℕ → Alert → Segment
segment start end a = record {
  start = start;
  end = end;
  level = shown_level a.level;
  message = a.message;
}

-- The loop over the rows, and the final segment.
unfoldable pub segments : ℕ → ℕ → Alert → List StatusLog → List Segment
unfolding segment
segments start end current [] = segment start end current ∷ []
segments start end current (l ∷ ls) =
    segment start l.time current ∷ segments l.time end (alert_of l) ls

-- The segments of a device in a window.
unfoldable pub timeline : String → ℕ → ℕ → List StatusLog → List Segment
unfolding segments initial_alert window_logs
timeline id start end logs =
    segments start end (initial_alert id start logs) (window_logs id start end logs)

pub data TimelineReply : Type 0 where
  shown : List Segment → TimelineReply
  unknown_device : TimelineReply
  server_error : TimelineReply

abbrev pub timeline_in : Reader → String → List StatusLog → Window → TimelineReply
timeline_in env id logs none = server_error
timeline_in env id logs (some (start, end)) =
    shown (timeline id (instant env start) (instant env end) logs)

-- get_object_or_404(Device, device_id=..., is_approved=True)
abbrev pub approved_only : Option Device → Option Device
approved_only none = none
approved_only (some d) = if d.is_approved then some d else none

-- status_timeline_view, behind its role check
unfoldable pub status_timeline_view :
    Reader → ℕ → List Device → List StatusLog → String → Dict String → TimelineReply
unfolding find_device timeline parse_time_range
status_timeline_view env now devices logs id query = elim (approved_only (find_device id devices)) [
  | none ↦ unknown_device
  | some d ↦ timeline_in env id logs (parse_time_range env now query)
]
