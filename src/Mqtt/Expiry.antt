-- ===== src/Mqtt/Expiry.antt =====
-- OTA updates that get no confirmation: the sensor handler of web/mqtt_bridge/services.py ends them,
-- and nothing that it does afterwards makes another one stale.
use sensor_server.Prelude.{
  if◌then◌else◌, ℕ, ◌+◌, ◌*◌, String, ◌≡◌, refl, sym, subst, Bool, true, false, not, ◌&&◌, ◌||◌,
  Option, none, some, List, [], ◌∷◌, All, All-append, arith, ltb, ◌==◌, if_cases, max,
}
use sensor_server.Value.{Json, Dict, Python}
use sensor_server.Store.{Device, second, is_online}
use sensor_server.World.{
  World, Run, CommandLog, Status, is_terminal, is_pending, find_device, update_where, mqtt_publish,
  mark, log_status, create_command, group_send, pending_with,
}
use sensor_server.Mqtt.Requests.{
  ota_timeout, ota_update_timeout, check_ota_timeouts, alert_reassert_window, has_alert,
}
use sensor_server.Mqtt.Alert.{no_capabilities_alert}
use sensor_server.Mqtt.Queue.{check_ota_timeouts_complete}
use sensor_server.Mqtt.Payload.{raised, decoded, decode}
use sensor_server.Mqtt.Sensor.{
  is_refused, sensor_found, Reconciled, cleared_with_event, reconcile_since, reconcile_reported,
  ingest, discovered, sensor_decoded, reconcile_alert, mark_seen, check_capabilities_timeout,
  after_seen, get_or_create, sensor_body, handle_sensor_message,
}
use sensor_server.Mqtt.Effects.{
  Effect, Effects, saves, discovers, sends, marks, creates, logs_status, logs_diag, notifies,
  stores,
}
use sensor_server.Mqtt.Effects.Closure.{Effects-induction}
use sensor_server.Mqtt.Confined.{Found, Found-device_id, Quiet-Reaches}
use sensor_server.Mqtt.Confined.Requests.{check_ota_timeouts-Quiet}
use sensor_server.Mqtt.Confined.Arrival.{mark_seen-Reaches}
use sensor_server.Mqtt.Confined.Sensor.{
  wake_up-Reaches, check_request-Reaches, after_seen-Reaches, ingest-Effects,
}

-- A pending OTA update of the device that is older than `span`.
unfoldable pub is_expired : ℕ → ℕ → String → CommandLog → Bool
unfolding pending_with
is_expired now span id c = pending_with id (Json.str "ota_update") c && ltb (c.sent_at + span) now

abbrev pub NoneExpired : ℕ → ℕ → String → World → Type 0
NoneExpired now span id w = All (λ c. is_expired now span id c ≡ false) w.commands

terminal_not_pending : (s : Status) → is_terminal s ≡ true → is_pending s ≡ false
terminal_not_pending Status.pending h = cc
terminal_not_pending Status.success h = refl
terminal_not_pending Status.failed h = refl
terminal_not_pending Status.timeout h = refl

marked-NoneExpired :
    (now span : ℕ) (id : String) (status : Status) (message : String) (test : CommandLog → Bool)
    (cs : List CommandLog)
    → is_terminal status ≡ true
    → All (λ c. is_expired now span id c ≡ false) cs
    → All (λ c. is_expired now span id c ≡ false) (update_where test (mark status message now) cs)
unfolding update_where mark is_expired
marked-NoneExpired now span id status message test [] h all = tt
marked-NoneExpired now span id status message test (c ∷ cs) h all = (
  if_cases (λ (x : CommandLog). is_expired now span id x ≡ false) (test c)
      (λ _. ground (arith, terminal_not_pending status h)) (λ _. all.0),
  marked-NoneExpired now span id status message test cs h all.1,
)

Effect-NoneExpired :
    {now : ℕ} {id : String} (span : ℕ) {w v : World}
    → Effect now id w v
    → NoneExpired now span id w
    → NoneExpired now span id v
unfolding mqtt_publish log_status create_command group_send
Effect-NoneExpired span (saves f row found keeps approved valid) h = h
Effect-NoneExpired span (discovers t unknown fits) h = h
Effect-NoneExpired {now} {id} span {w} (sends m one_shot) h =
    if_cases (λ (o : Bool × World). NoneExpired now span id o.1) (w.broker w.attempts) (λ _. h)
      (λ _. h)
Effect-NoneExpired {now} {id} span {w} (marks status message test terminal selects) h =
    marked-NoneExpired now span id status message test w.commands terminal h
Effect-NoneExpired {now} {id} span {w} (creates d command sent_by own) h =
    All-append (λ c. is_expired now span id c ≡ false) w.commands _ h
      (unfold is_expired in (ground arith, tt))
Effect-NoneExpired span (logs_status d own) h = h
Effect-NoneExpired span (logs_diag s own) h = h
Effect-NoneExpired span (notifies e) h = h
Effect-NoneExpired span (stores readings approved own) h = h

Effects-NoneExpired :
    {now : ℕ} {id : String} (span : ℕ) {w v : World}
    → Effects now id w v
    → NoneExpired now span id w
    → NoneExpired now span id v
Effects-NoneExpired {now} {id} span =
    Effects-induction (λ w v. NoneExpired now span id w → NoneExpired now span id v) (λ w h. h)
      (λ w u v p e h. Effect-NoneExpired span e (p h))

-- The first save keeps the publish interval.
since-publish_interval :
    (now : ℕ) (r : Run) (o : Option ℕ)
    → (reconcile_since now r o).run.device.publish_interval ≡ r.device.publish_interval
unfolding cleared_with_event
since-publish_interval now r none = refl
since-publish_interval now r (some updated) =
    if_cases (λ (s : Reconciled). s.run.device.publish_interval ≡ r.device.publish_interval)
      (ltb (updated + alert_reassert_window r.device * second) now) (λ _. refl) (λ _. refl)

mark_seen-publish_interval :
    (now : ℕ) (r : Run) → (mark_seen now r).device.publish_interval ≡ r.device.publish_interval
unfolding mark_seen reconcile_alert reconcile_reported cleared_with_event
mark_seen-publish_interval now r =
    let s = record r { device = record r.device { last_seen = some now } } in
    if_cases (λ (t : Reconciled). t.run.device.publish_interval ≡ r.device.publish_interval)
      (r.device.alert_message == no_capabilities_alert) (λ _. refl)
      (λ _.
        if_cases (λ (t : Reconciled). t.run.device.publish_interval ≡ r.device.publish_interval)
          (has_alert r.device) (λ _. since-publish_interval now s r.device.alert_updated_at)
          (λ _. refl))

-- What follows the timeout check in after_seen.
after_seen-NoneExpired :
    (now : ℕ) (id : String) (created was_online : Bool) (r : Run)
    → Found id r
    → NoneExpired now (ota_timeout r.device * second) id (after_seen now created was_online r).world
unfolding after_seen check_capabilities_timeout
after_seen-NoneExpired now id created was_online r h =
    let own = Found-device_id id r h in
    let v = check_ota_timeouts now r.device r.world in
    let r1 = record r { world = v } in
    let timed = Quiet-Reaches r v h (check_ota_timeouts-Quiet r.device r.world own) in
    let checked : NoneExpired now (ota_timeout r.device * second) id v =
      subst (λ k. NoneExpired now (ota_timeout r.device * second) k v) own
        (unfold is_expired in check_ota_timeouts_complete now r.device r.world) in
    if_cases (λ (s : Run). NoneExpired now (ota_timeout r.device * second) id s.world)
      (created || not was_online)
      (λ _.
        Effects-NoneExpired (ota_timeout r.device * second) (wake_up-Reaches r1 timed.found).effects
          checked)
      (λ _.
        Effects-NoneExpired (ota_timeout r.device * second)
          (check_request-Reaches r1 r1.device.capabilities_requested_at timed.found).effects
          checked)

sensor_body-NoneExpired :
    (py : Python) (now : ℕ) (device_type id : String) (fields : Dict Json) (w : World) (d : Device)
    (created : Bool)
    → find_device id w.devices ≡ some d
    → NoneExpired now
        (ota_timeout d * second)
        id
        (ingest py now device_type id fields (
          after_seen now created
            (is_online now d)
            (mark_seen now (record { device = d; world = w })))).1
unfolding ota_timeout
sensor_body-NoneExpired py now device_type id fields w d created h =
    let r : Run = record { device = d; world = w } in
    let s = mark_seen now r in
    let marked = mark_seen-Reaches now id r h in
    let after = after_seen-Reaches {now = now} created (is_online now d) s marked.found in
    let t = after_seen now created (is_online now d) s in
    Effects-NoneExpired (ota_timeout d * second)
      (ingest-Effects py device_type fields t after.found)
      (subst (λ n. NoneExpired now (max ota_update_timeout (3 * n) * second) id t.world)
        (mark_seen-publish_interval now r)
        (after_seen-NoneExpired now id created (is_online now d) s marked.found))

-- When sensor data of a known device is handled, in a message that can be decoded, no OTA update of
-- that device stays pending beyond its timeout, the longer of ten minutes and three publish
-- intervals: whatever the rest of the handler does, each such command has ended.
pub handle_sensor_message-NoneExpired :
    (py : Python) (now : ℕ) (device_type id : String) (payload : List ℕ) (w : World)
    (fields : Dict Json) (d : Device)
    → decode py payload ≡ decoded fields
    → find_device id w.devices ≡ some d
    → NoneExpired now
        (ota_timeout d * second)
        id
        (handle_sensor_message py now device_type id payload w).1
unfolding handle_sensor_message sensor_body sensor_found get_or_create
handle_sensor_message-NoneExpired py now device_type id payload w fields d e h =
    subst
      (λ m.
        NoneExpired now (ota_timeout d * second) id (sensor_decoded py now device_type id m w).1)
      (sym e)
      (subst
        (λ o.
          NoneExpired now (ota_timeout d * second) id
            (if is_refused device_type o
              then (raised, w)
              else ingest py now device_type id fields (
                  after_seen now (discovered device_type id w o).created
                    (is_online now (discovered device_type id w o).run.device)
                    (mark_seen now (discovered device_type id w o).run))).1)
        (sym h) (sensor_body-NoneExpired py now device_type id fields w d false h))
