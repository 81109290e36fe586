-- ===== src/Mqtt/Examples/Parts.antt =====
-- The theorems about single operations at the sample data.
use sensor_server.Prelude.{
  if◌then◌else◌, ◌&&◌, ◌*◌, ◌≡◌, refl, ◌⊎◌, true, false, none, some, [], ◌∷◌, ◌++◌, pos, arith,
  eq_iff, select,
}
use sensor_server.Value.{Dict, get_or, Json, Fields}
use sensor_server.Store.{Device, warning, error, DiagLevel, no_capabilities, second}
use sensor_server.World.{update_device, Run, DiagLog, find_device}
use sensor_server.Mqtt.Payload.{handled, rejected, no_matching_command, decode}
use sensor_server.Mqtt.Topic.{Topic, parse_topic, topic_of_parts}
use sensor_server.Mqtt.Requests.{
  maybe_request_diag, should_poll, diag_poll_cooldown, ota_timeout, flush_pending_commands,
}
use sensor_server.Mqtt.Sensor.{ingest, mark_seen, check_capabilities_timeout}
use sensor_server.Mqtt.HealthStatus.{report_status, status_message}
use sensor_server.Mqtt.Diag.{snapshot, diag_message}
use sensor_server.Mqtt.Diag.Snapshot.{Holds, IsSnapshot, snapshot-IsSnapshot}
use sensor_server.Mqtt.Ack.{resolve_ack}
use sensor_server.Mqtt.Worker.{on_message}
use sensor_server.Mqtt.Rejection.{on_message-unknown}
use sensor_server.Mqtt.Addressing.{Reads, topic_text, parse_topic-Reads, parse_topic-topic_text}
use sensor_server.Mqtt.Readings.{ingest-readings, all_fit, readings_of}
use sensor_server.Value.{entries, field, end}
use sensor_server.World.{update_device, World}
use sensor_server.Mqtt.Requests.{action}
use sensor_server.Mqtt.Sensor.{handle_sensor_message}
use sensor_server.Mqtt.Expiry.{NoneExpired, handle_sensor_message-NoneExpired}
use sensor_server.Mqtt.Queue.{IsFlushed, is_waiting, flush_pending_commands-IsFlushed}
use sensor_server.Mqtt.Acknowledgement.{IsAcked, answers, resolve_ack-IsAcked}
use sensor_server.Mqtt.Polling.{
  IsPolled, maybe_request_diag-IsPolled, maybe_request_diag-cooldown, reloaded,
}
use sensor_server.Mqtt.Alerts.{
  IsReconciled, mark_seen-IsReconciled, IsTimedOut, is_overdue,
  check_capabilities_timeout-IsTimedOut,
}
use sensor_server.Mqtt.Reports.{IsReported, stated, status_entry, report_status-IsReported}
use sensor_server.Mqtt.Examples.{sample_python, sample_command, empty_world}

-- A thermometer with an error, a calibration, and a firmware that sends diagnostics.
abbrev pub sample_device : Device
sample_device = record {
  device_id = "d1";
  device_type = "thermo";
  display_name = "";
  location = "";
  config = Json.dict Fields.end;
  last_seen = some 900;
  is_approved = true;
  hardware_id = "";
  hardware_code = none;
  hw_rev = none;
  ota_capable = false;
  diag_capable = true;
  calibration = ("cal_temp", Json.int (pos 2)) ∷ ("gain", Json.str "x") ∷ [];
  fw_version = "1.2";
  battery_percent = none;
  capabilities = no_capabilities;
  publish_interval = 0;
  alert_level = error;
  alert_message = "broken";
  alert_updated_at = some 900;
  diag_requested_at = none;
  capabilities_requested_at = some 800;
  guest_visible_metrics = [];
  location_type = "";
  battery_cell_count = 1;
}

abbrev sample_run : Run
sample_run = record {
  device = sample_device;
  world = record empty_world {
    devices = sample_device ∷ [];
    commands = record sample_command { command = action "ota_update" } ∷ [];
  };
}

abbrev sample_topic : Topic
sample_topic = record { device_type = "thermo"; device_id = "d1"; msg_type = "status" }

on_message-unknown_example :
    (on_message sample_python 1000 "thermo/d1/status" (123 ∷ []) empty_world).1 ≡ empty_world
on_message-unknown_example =
    on_message-unknown sample_python 1000 "thermo/d1/status" (123 ∷ []) empty_world sample_topic
      (unfold parse_topic topic_of_parts in refl) (unfold find_device in refl)
      (λ e. ground (arith, eq_iff "status" "sensors"))

parse_topic-Reads_example : Reads "thermo/d1/status" sample_topic
parse_topic-Reads_example =
    parse_topic-Reads "thermo/d1/status" sample_topic (unfold parse_topic topic_of_parts in refl)

parse_topic-topic_text_example : parse_topic (topic_text sample_topic) ≡ some sample_topic
parse_topic-topic_text_example =
    parse_topic-topic_text sample_topic (unfold parse_topic in refl) (unfold parse_topic in refl) (
      λ e. omega (arith, e),
      (
        λ e. omega (arith, e),
        (
          λ e. omega (arith, e),
          (λ e. omega (arith, e), (λ e. omega (arith, e), (λ e. omega (arith, e), tt))),
        ),
      ),
    )

abbrev two_items : Dict Json
two_items = ("temp", Json.int (pos 21)) ∷ ("bad name", Json.null) ∷ []

ingest-readings_example :
    (ingest sample_python 1000 "thermo" "d1" two_items sample_run).1.readings
    ≡ sample_run.world.readings
      ++ (if sample_run.device.is_approved && all_fit sample_python two_items
          then readings_of sample_python 1000 "d1" two_items
          else [])
ingest-readings_example = ingest-readings sample_python 1000 "thermo" "d1" two_items sample_run

flush_pending_commands-IsFlushed_example :
    IsFlushed sample_device
      (is_waiting sample_device)
      empty_world
      (flush_pending_commands sample_device empty_world)
flush_pending_commands-IsFlushed_example =
    flush_pending_commands-IsFlushed sample_device empty_world (λ n. refl)

resolve_ack-IsAcked_example :
    ((resolve_ack 1000 (Json.str "reboot") (Json.str "ok") (Json.str "") sample_run
        ≡ (rejected no_matching_command, sample_run.world))
      × (select (answers sample_device (Json.str "reboot")) sample_run.world.commands ≡ []))
    ⊎ ((resolve_ack 1000 (Json.str "reboot") (Json.str "ok") (Json.str "") sample_run).0 ≡ handled)
      × IsAcked 1000
          (Json.str "reboot")
          (Json.str "ok")
          (Json.str "")
          sample_run
          (resolve_ack 1000 (Json.str "reboot") (Json.str "ok") (Json.str "") sample_run).1
resolve_ack-IsAcked_example =
    resolve_ack-IsAcked 1000 (Json.str "reboot") (Json.str "ok") (Json.str "") sample_run

abbrev polled_device : Device
polled_device = record sample_device { diag_requested_at = some 1000 }

sample_run-found :
    find_device sample_run.device.device_id sample_run.world.devices ≡ some sample_run.device
unfolding find_device
sample_run-found = refl

maybe_request_diag-IsPolled_example :
    (maybe_request_diag 1000 sample_run ≡ sample_run)
    ⊎ IsPolled 1000 sample_run (maybe_request_diag 1000 sample_run)
maybe_request_diag-IsPolled_example =
    maybe_request_diag-IsPolled 1000 sample_run (λ n. refl) sample_run-found

maybe_request_diag-cooldown_example :
    maybe_request_diag 1001 (reloaded polled_device (maybe_request_diag 1000 sample_run))
    ≡ reloaded polled_device (maybe_request_diag 1000 sample_run)
unfolding find_device update_device
maybe_request_diag-cooldown_example =
    maybe_request_diag-cooldown 1000 1001 sample_run polled_device sample_run-found
      (unfold should_poll in refl) (unfold maybe_request_diag in refl)
      (unfold diag_poll_cooldown in omega arith)

mark_seen-IsReconciled_example : IsReconciled 1000 sample_run (mark_seen 1000 sample_run)
mark_seen-IsReconciled_example = mark_seen-IsReconciled 1000 sample_run sample_run-found

check_capabilities_timeout-IsTimedOut_example :
    ((is_overdue 70000000 sample_device (some 800) ≡ true)
      × IsTimedOut 70000000 sample_run (check_capabilities_timeout 70000000 sample_run))
    ⊎ (is_overdue 70000000 sample_device (some 800) ≡ false)
      × (check_capabilities_timeout 70000000 sample_run ≡ sample_run)
check_capabilities_timeout-IsTimedOut_example =
    check_capabilities_timeout-IsTimedOut 70000000 sample_run sample_run-found

report_status-IsReported_example :
    IsReported 1000 "d1"
      (stated 1000 warning (Json.str "hot") sample_device)
      (report_status 1000 warning (Json.str "hot") sample_run)
    × ((report_status 1000 warning (Json.str "hot") sample_run).status_logs
        ≡ [] ++ status_entry 1000 sample_device warning "hot" ∷ [])
unfolding status_message
report_status-IsReported_example =
    report_status-IsReported 1000 sample_run (unfold find_device in refl) warning (Json.str "hot")

abbrev sample_snapshot : DiagLog
sample_snapshot = record {
  time = 1000;
  device = "d1";
  level = DiagLevel.warning;
  message = "low heap";
  reset_cause = some 1;
  boot = some 3;
  miss = none;
  wake_ms = none;
  seq = some 7;
  pubfail = none;
  rssi = none;
  heap = some 900;
  battery_percent = some 80;
  txsent = none;
  txok = none;
}

snapshot-IsSnapshot_example :
    Holds
      (IsSnapshot 1000 "d1" DiagLevel.ok "")
      (snapshot 1000 "d1" DiagLevel.ok (("boot", Json.int (pos 3)) ∷ []))
unfolding diag_message get_or
snapshot-IsSnapshot_example =
    snapshot-IsSnapshot 1000 "d1" DiagLevel.ok (("boot", Json.int (pos 3)) ∷ [])

abbrev known_device : World
known_device = record empty_world {
  devices = sample_device ∷ [];
  commands = record sample_command { command = action "ota_update" } ∷ [];
}

handle_sensor_message-NoneExpired_example :
    NoneExpired 700000000000
      (ota_timeout sample_device * second)
      "d1"
      (handle_sensor_message sample_python 700000000000 "thermo" "d1" (123 ∷ []) known_device).1
handle_sensor_message-NoneExpired_example =
    handle_sensor_message-NoneExpired sample_python 700000000000 "thermo" "d1" (123 ∷ [])
      known_device (entries (field "temp" (Json.int (pos 21)) end)) sample_device
      (unfold decode entries in refl) (unfold find_device in refl)
