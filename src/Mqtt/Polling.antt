-- ===== src/Mqtt/Polling.antt =====
-- Diagnostics polling: `_maybe_request_diag` of web/mqtt_bridge/services.py.
use sensor_server.Prelude.{
  ℕ, ◌+◌, ◌*◌, ◌≤◌, ◌<◌, ◌≡◌, sym, ◌∙◌, subst, ◌⊎◌, refl, true, false, none, some, [], ◌∷◌, ◌++◌,
  arith, if_cases, inl, inr,
}
use sensor_server.Store.{Device, second, is_online, supports_diag, is_battery_low}
use sensor_server.World.{Run, find_device, mqtt_publish, save}
use sensor_server.Mqtt.Requests.{
  action, command_topic, send_command, request_diag, diag_poll_cooldown, has_alert, in_cooldown,
  should_poll, diag_polled, maybe_request_diag,
}
use sensor_server.Mqtt.Queue.{IsUp}
use sensor_server.Mqtt.Confined.Requests.{
  request_diag-Reaches, diag_polled-Reaches, maybe_request_diag-Reaches,
}

-- The guards, one by one: the device reports an alert, can send diagnostics, is online, has battery,
-- and was last asked at least a cooldown ago.
pub record IsDue (now : ℕ) (d : Device) : Type 0 where
  pub alerted : has_alert d ≡ true
  pub able : supports_diag d ≡ true
  pub online : is_online now d ≡ true
  pub charged : is_battery_low d ≡ false
  pub rested :
      (polled : ℕ)
      → d.diag_requested_at ≡ some polled
      → polled * 10 + diag_poll_cooldown d * second ≤ now * 10

in_cooldown-rested :
    (now polled : ℕ) (d : Device)
    → in_cooldown now d ≡ false
    → d.diag_requested_at ≡ some polled
    → polled * 10 + diag_poll_cooldown d * second ≤ now * 10
unfolding in_cooldown
in_cooldown-rested now polled d h e = elim d.diag_requested_at [
  | none ↦ ground arith
  | some p ↦ ground arith
]

-- What holds where the guards let a poll through.
should_poll-IsDue : (now : ℕ) (d : Device) → should_poll now d ≡ true → IsDue now d
unfolding should_poll
should_poll-IsDue now d h = record {
  alerted = ground arith;
  able = ground arith;
  online = ground arith;
  charged = ground arith;
  rested = λ polled e. in_cooldown-rested now polled d (ground arith) e;
}

-- The state of the poll, beside what it sent: the row of the device remembers when it was asked.
pub record IsPolled (now : ℕ) (r s : Run) : Type 0 where
  pub due : IsDue now r.device
  pub row : find_device r.device.device_id s.world.devices ≡ some s.device
  pub remembered : s.device.diag_requested_at ≡ some now
  pub sent :
      s.world.outbox
      ≡ r.world.outbox
        ++ record {
          topic = command_topic r.device;
          payload = action "get_diag";
          retain = false;
          qos = 1;
        }
          ∷ []

request_diag-outbox :
    (r : Run)
    → IsUp r.world
    → (request_diag r).world.outbox
      ≡ r.world.outbox
        ++ record {
          topic = command_topic r.device;
          payload = action "get_diag";
          retain = false;
          qos = 1;
        }
          ∷ []
unfolding request_diag send_command mqtt_publish
request_diag-outbox r up = ground (arith, up r.world.attempts)

-- While the broker takes publications, the poll of a known device either changes nothing, or the
-- device is in alert, can answer, is online, has battery and was not asked within the cooldown; then
-- exactly one request for diagnostics goes out, and the time stands in the row of the device.
pub maybe_request_diag-IsPolled :
    (now : ℕ) (r : Run)
    → IsUp r.world
    → find_device r.device.device_id r.world.devices ≡ some r.device
    → (maybe_request_diag now r ≡ r) ⊎ IsPolled now r (maybe_request_diag now r)
unfolding maybe_request_diag
maybe_request_diag-IsPolled now r up h =
    if_cases (λ (s : Run). (s ≡ r) ⊎ IsPolled now r s) (should_poll now r.device)
      (λ due. inr (record {
        due = should_poll-IsDue now r.device due;
        row =
            (diag_polled-Reaches {now = now} (request_diag r)
              (request_diag-Reaches {now = now} r h).found).found;
        remembered = unfold diag_polled in refl;
        sent = unfold diag_polled save in request_diag-outbox r up;
      }))
      (λ _. inl refl)

polled_before :
    (now later : ℕ) (d : Device)
    → d.diag_requested_at ≡ some now
    → later * 10 < now * 10 + diag_poll_cooldown d * second
    → should_poll later d ≡ false
unfolding should_poll in_cooldown
polled_before now later d h soon = rw h (ground arith)

in_memory-cooldown :
    (now later : ℕ) (r : Run)
    → should_poll now r.device ≡ true
    → later * 10 < now * 10 + diag_poll_cooldown r.device * second
    → maybe_request_diag later (maybe_request_diag now r) ≡ maybe_request_diag now r
unfolding maybe_request_diag diag_polled
in_memory-cooldown now later r due soon = rw due (
    rw
      (polled_before now later (record (request_diag r).device { diag_requested_at = some now })
        refl (unfold diag_poll_cooldown request_diag in soon))
      refl)

some_injective : (d e : Device) → some d ≡ some e → d ≡ e
some_injective d e h = cc

-- A run that loads the row of the device again, as the next message does.
abbrev pub reloaded : Device → Run → Run
reloaded row s = record { device = row; world = s.world }

-- Once a poll of a known device has gone through, the poll of a later message, which works on the row
-- that it loads from the table, does nothing before the end of the cooldown.
pub maybe_request_diag-cooldown :
    (now later : ℕ) (r : Run) (row : Device)
    → find_device r.device.device_id r.world.devices ≡ some r.device
    → should_poll now r.device ≡ true
    → find_device r.device.device_id (maybe_request_diag now r).world.devices ≡ some row
    → later * 10 < now * 10 + diag_poll_cooldown r.device * second
    → maybe_request_diag later (reloaded row (maybe_request_diag now r))
      ≡ reloaded row (maybe_request_diag now r)
maybe_request_diag-cooldown now later r row h due loaded soon =
    let s = maybe_request_diag now r in
    let stored = (maybe_request_diag-Reaches {now = now} r h).found in
    subst (λ d. maybe_request_diag later (reloaded d s) ≡ reloaded d s)
      (some_injective s.device row (sym stored ∙ loaded)) (in_memory-cooldown now later r due soon)
