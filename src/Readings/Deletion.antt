-- ===== src/Readings/Deletion.antt =====
-- `delete_readings_view` of web/readings/views.py. Chunks and aggregates are TimescaleDB's.
use sensor_server.Prelude.{
  ℕ, String, Bool, not, ◌&&◌, ◌||◌, none, some, List, leb, eqb, ◌==◌, length, select, if◌then◌else◌,
}
use sensor_server.Text.{is_empty}
use sensor_server.Value.{Dict}
use sensor_server.Store.{Device}
use sensor_server.World.{SensorReading, find_device}
use sensor_server.Api.Range.{Parsed, unreadable, impossible, aware, naive, Reader, param}
use sensor_server.Readings.Window.{parsed}

pub data Deletion : Type 0 where
  deleted : ℕ → Deletion
  post_required invalid_range unknown_device server_error : Deletion

-- The two ends of the range, in UTC.
pub data Span : Type 0 where
  from_to : ℕ → ℕ → Span
  missing : Span
  -- An exception: a ValueError, or the TypeError of a local and an aware time.
  raised : Span

abbrev pub span_of : Reader → Parsed → Parsed → Span
span_of env impossible _ = raised
span_of env _ impossible = raised
span_of env unreadable _ = missing
span_of env _ unreadable = missing
span_of env (aware s) (aware e) = if leb e s then missing else from_to s e
span_of env (naive s) (naive e) =
    if leb e s then missing else from_to (env.make_aware s) (env.make_aware e)
span_of env _ _ = raised

-- The filter of the deletion.
unfoldable pub is_hit : String → String → ℕ → ℕ → SensorReading → Bool
is_hit id metric start end r =
    (r.device_id == id)
    && leb start r.time
    && leb r.time end
    && (is_empty metric || (r.metric == metric))

-- Count the rows, and delete them if there are any.
unfoldable pub delete_hits :
    String → String → ℕ → ℕ → List SensorReading → Deletion × List SensorReading
unfolding is_hit select
delete_hits id metric start end rows =
    let count = length (select (is_hit id metric start end) rows) in
    if eqb count 0
    then (deleted 0, rows)
    else (deleted count, select (λ r. not (is_hit id metric start end r)) rows)

unfoldable pub delete_span :
    String → String → List SensorReading → Span → Deletion × List SensorReading
unfolding delete_hits
delete_span id metric rows raised = (server_error, rows)
delete_span id metric rows missing = (invalid_range, rows)
delete_span id metric rows (from_to start end) = delete_hits id metric start end rows

-- delete_readings_view, behind its role check; `strip` is Python's
unfoldable pub delete_readings_view :
    Reader
    → (String → String)
    → List Device
    → String
    → String
    → Dict String
    → List SensorReading
    → Deletion × List SensorReading
unfolding find_device param delete_span
delete_readings_view env strip devices method id form rows = elim (find_device id devices) [
  | none ↦ (unknown_device, rows)
  | some d ↦
      if not (method == "POST")
      then (post_required, rows)
      else delete_span id (strip (param "metric" form)) rows
          (span_of env (parsed env (param "start" form)) (parsed env (param "end" form)))
]
