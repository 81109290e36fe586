-- ===== src/Mqtt/Alerts.antt =====
-- The alert of a device: how data and silence change it in `handle_sensor_message`, and how reports
-- set it in `handle_status_message` and `handle_diag_message`, all of web/mqtt_bridge/services.py.
use sensor_server.Prelude.{
  ℕ, ◌+◌, ◌*◌, ◌≡◌, refl, Bool, true, false, ◌||◌, ◌&&◌, Option, none, some, [], ◌∷◌, ◌++◌, All,
  ltb, ◌==◌, max, if◌then◌else◌, ◌⊎◌, inl, inr,
}
use sensor_server.Text.{concat}
use sensor_server.Value.{Json}
use sensor_server.Store.{Device, clear, error, second}
use sensor_server.World.{Run, find_device, timeout, save, log_status, group_send, pending_with}
use sensor_server.Mqtt.Alert.{no_capabilities_alert, set_alert, announce, log_and_announce}
use sensor_server.Mqtt.Requests.{
  has_alert, alert_reassert_window, resolve_capability_requests, show,
}
use sensor_server.Mqtt.Queue.{resolve_capability_requests_complete}
use sensor_server.Mqtt.Confined.Arrival.{mark_seen-Reaches}
use sensor_server.Mqtt.Confined.Sensor.{capabilities_timed_out-Reaches}
use sensor_server.Mqtt.Sensor.{
  Reconciled, copy_alert_and_request, cleared_with_event, reconcile_since, reconcile_reported,
  reconcile_alert, mark_seen, seen, UpdateFields, capabilities_timeout, capabilities_timed_out,
  check_request, check_capabilities_timeout,
}

-- More than three publish intervals, or the default offline timeout, since the device said it.
abbrev pub is_stale : ℕ → Device → Option ℕ → Bool
is_stale now d none = false
is_stale now d (some updated) = ltb (updated + alert_reassert_window d * second) now

-- The alert that data disproves: a missing answer, or a report that the device has not repeated.
abbrev pub is_disproved : ℕ → Device → Bool
is_disproved now d =
    (d.alert_message == no_capabilities_alert) || (has_alert d && is_stale now d d.alert_updated_at)

-- The alert and its log, before and behind the arrival of data; the row is the device in memory.
pub record IsReconciled (now : ℕ) (r s : Run) : Type 0 where
  pub row : find_device r.device.device_id s.world.devices ≡ some s.device
  pub seen_now : s.device.last_seen ≡ some now
  pub level :
      s.device.alert_level ≡ (if is_disproved now r.device then clear else r.device.alert_level)
  pub message :
      s.device.alert_message ≡ (if is_disproved now r.device then "" else r.device.alert_message)
  pub logged : s.world.status_logs ≡ (
      if is_disproved now r.device
      then r.world.status_logs
        ++ record {
          time = now;
          device = r.device.device_id;
          alert_level = clear;
          alert_message = "";
        }
          ∷ []
      else r.world.status_logs)

-- The same with the outcome of the test as an argument.
record Reconciles (now : ℕ) (r : Run) (b : Bool) (s : Reconciled) : Type 0 where
  seen_now : s.run.device.last_seen ≡ some now
  level : s.run.device.alert_level ≡ (if b then clear else r.device.alert_level)
  message : s.run.device.alert_message ≡ (if b then "" else r.device.alert_message)
  logged : s.run.world.status_logs ≡ (
      if b
      then r.world.status_logs
        ++ record {
          time = now;
          device = r.device.device_id;
          alert_level = clear;
          alert_message = "";
        }
          ∷ []
      else r.world.status_logs)

module _ (now : ℕ) (r : Run) where
  abbrev fresh : Run
  fresh = record r { device = record r.device { last_seen = some now } }

  cleared-Reconciles : Reconciles now r true (cleared_with_event now fresh)
  unfolding cleared_with_event log_and_announce log_status announce group_send
  cleared-Reconciles = record { seen_now = refl; level = refl; message = refl; logged = refl }

  kept-Reconciles :
      (fields : UpdateFields) → Reconciles now r false (record { run = fresh; fields = fields })
  kept-Reconciles fields = record { seen_now = refl; level = refl; message = refl; logged = refl }

  since-Reconciles :
      (o : Option ℕ) → Reconciles now r (is_stale now r.device o) (reconcile_since now fresh o)
  unfolding alert_reassert_window
  since-Reconciles none = record { seen_now = refl; level = refl; message = refl; logged = refl }
  since-Reconciles (some updated) =
      by_age (ltb (updated + alert_reassert_window r.device * second) now)
    where
      by_age :
          (b : Bool)
          → Reconciles now r b
              (if b then cleared_with_event now fresh else record { run = fresh; fields = seen })
      by_age true = cleared-Reconciles
      by_age false = kept-Reconciles seen

  alert-Reconciles : Reconciles now r (is_disproved now r.device) (reconcile_alert now fresh)
  unfolding reconcile_alert reconcile_reported
  alert-Reconciles =
      by_message (r.device.alert_message == no_capabilities_alert) (has_alert r.device)
    where
      by_message :
          (a b : Bool)
          → Reconciles now r (a || (b && is_stale now r.device r.device.alert_updated_at)) (
              if a
              then cleared_with_event now fresh
              else if b
              then reconcile_since now fresh r.device.alert_updated_at
              else record { run = fresh; fields = seen })
      by_message true b = cleared-Reconciles
      by_message false true = since-Reconciles r.device.alert_updated_at
      by_message false false = kept-Reconciles seen

-- Data from a known device marks its row as seen. It clears the alert of the row and logs that, if the
-- alert stands for a missing answer to a request for capabilities, or if the device has not repeated
-- it within the window of three publish intervals; otherwise the level and the message of the row
-- stay and nothing is logged.
pub mark_seen-IsReconciled :
    (now : ℕ) (r : Run)
    → find_device r.device.device_id r.world.devices ≡ some r.device
    → IsReconciled now r (mark_seen now r)
unfolding mark_seen save
mark_seen-IsReconciled now r h =
    let o = alert-Reconciles now r in
    let row = (mark_seen-Reaches now r.device.device_id r h).found in
    record {
      row = unfold mark_seen save in row;
      seen_now = o.seen_now;
      level = o.level;
      message = o.message;
      logged = o.logged;
    }

-- Has the device left a request for capabilities unanswered for too long?
abbrev pub is_overdue : ℕ → Device → Option ℕ → Bool
is_overdue now d none = false
is_overdue now d (some asked) = ltb (asked + max 60 (3 * d.publish_interval) * second) now

-- The state of an unanswered request; the row is the device in memory.
pub record IsTimedOut (now : ℕ) (r s : Run) : Type 0 where
  pub row : find_device r.device.device_id s.world.devices ≡ some s.device
  pub level : s.device.alert_level ≡ error
  pub message : s.device.alert_message ≡ no_capabilities_alert
  pub updated : s.device.alert_updated_at ≡ some now
  pub closed : s.device.capabilities_requested_at ≡ none
  pub none_pending :
      All
        (λ c. pending_with r.device.device_id (Json.str "request_capabilities") c ≡ false)
        s.world.commands
  pub logged :
      s.world.status_logs
      ≡ r.world.status_logs
        ++ record {
          time = now;
          device = r.device.device_id;
          alert_level = error;
          alert_message = no_capabilities_alert;
        }
          ∷ []

capabilities_timed_out-IsTimedOut :
    (now : ℕ) (r : Run)
    → find_device r.device.device_id r.world.devices ≡ some r.device
    → IsTimedOut now r (capabilities_timed_out now r)
unfolding capabilities_timed_out save
capabilities_timed_out-IsTimedOut now r h =
    let d = record (set_alert error no_capabilities_alert (some now) r.device) {
      capabilities_requested_at = none;
    } in
    let reached = capabilities_timed_out-Reaches {now = now} r h in
    record {
      row = unfold capabilities_timed_out save in reached.found;
      level = refl;
      message = refl;
      updated = refl;
      closed = refl;
      none_pending =
          resolve_capability_requests_complete d timeout
            (concat "No response within " (concat (show (capabilities_timeout r.device)) "s")) now
            (log_status now d (save copy_alert_and_request d r.world)) refl;
      logged = unfold log_status resolve_capability_requests in refl;
    }

-- A request for capabilities of a known device that is overdue (no answer within the longer of 60
-- seconds and three publish intervals) turns into an error alert of its row with one log entry, is
-- closed in the row, and leaves no such command of the device pending; otherwise the check does
-- nothing.
pub check_capabilities_timeout-IsTimedOut :
    (now : ℕ) (r : Run)
    → find_device r.device.device_id r.world.devices ≡ some r.device
    → ((is_overdue now r.device r.device.capabilities_requested_at ≡ true)
        × IsTimedOut now r (check_capabilities_timeout now r))
      ⊎ (is_overdue now r.device r.device.capabilities_requested_at ≡ false)
        × (check_capabilities_timeout now r ≡ r)
unfolding check_capabilities_timeout capabilities_timeout
check_capabilities_timeout-IsTimedOut now r h = by_request r.device.capabilities_requested_at
  where
    by_age :
        (b : Bool)
        → ((b ≡ true) × IsTimedOut now r (if b then capabilities_timed_out now r else r))
          ⊎ (b ≡ false) × ((if b then capabilities_timed_out now r else r) ≡ r)
    by_age true = inl (refl, capabilities_timed_out-IsTimedOut now r h)
    by_age false = inr (refl, refl)

    by_request :
        (o : Option ℕ)
        → ((is_overdue now r.device o ≡ true) × IsTimedOut now r (check_request now r o))
          ⊎ (is_overdue now r.device o ≡ false) × (check_request now r o ≡ r)
    by_request none = inr (refl, refl)
    by_request (some asked) =
        by_age (ltb (asked + max 60 (3 * r.device.publish_interval) * second) now)
