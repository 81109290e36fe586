-- ===== src/Mqtt/Diag.antt =====
-- `_diag_uint` and `handle_diag_message` of web/mqtt_bridge/services.py.
pub mod Snapshot
use sensor_server.Prelude.{
  ℕ, ◌^◌, ◌-◌, ◌++◌, String, ℤ, pos, negsuc, Bool, true, false, not, ◌&&◌, Option, none, some, List,
  [], ◌∷◌, leb, ◌==◌, if◌then◌else◌,
}
use sensor_server.Text.{prefix}
use sensor_server.Value.{Json, Dict, Python, get_or, truncate}
use sensor_server.Store.{Device, AlertLevel, clear, DiagLevel}
use sensor_server.World.{World, Run, DiagLog, save}
use sensor_server.Mqtt.Payload.{
  Outcome, handled, rejected, raised, invalid_level, Handler, decode, with_device,
}
use sensor_server.Mqtt.Alert.{set_alert, log_and_announce}
use sensor_server.Mqtt.HealthStatus.{copy_alert_and_last_seen}

infixl 5 ◌>>=◌
-- `none` is an exception.
unfoldable pub ◌>>=◌ : {A B : Type 0} → Option A → (A → Option B) → Option B
none >>= f = none
some a >>= f = f a

unfoldable pub bounded : ℤ → ℕ → Option ℕ
bounded (pos n) maximum = if leb n maximum then some n else none
bounded (negsuc n) maximum = none

-- _diag_uint: the outer option is the exception that `int()` raises on an infinity or a nan
unfoldable pub diag_uint : Json → ℕ → Option (Option ℕ)
unfolding bounded truncate ◌>>=◌
diag_uint (Json.int n) maximum = some (bounded n maximum)
diag_uint (Json.float x) maximum = do n ← truncate x; some (bounded n maximum)
diag_uint _ maximum = some none

-- int(rssi) of a number
unfoldable pub rssi_of : Json → Option (Option ℤ)
unfolding truncate ◌>>=◌
rssi_of (Json.int n) = some (some n)
rssi_of (Json.float x) = do n ← truncate x; some (some n)
rssi_of _ = some none

-- 2**31 - 1
abbrev pub uint_max : ℕ
uint_max = 2147483647

-- `level not in ("ok", "info", "warning", "error")` is `none`.
unfoldable pub diag_level : Json → Option DiagLevel
diag_level (Json.str level) =
    if level == "ok"
    then some DiagLevel.ok
    else if level == "info"
    then some DiagLevel.info
    else if level == "warning"
    then some DiagLevel.warning
    else if level == "error"
    then some DiagLevel.error
    else none
diag_level _ = none

unfoldable pub diag_message : Json → String
unfolding prefix
diag_message (Json.str message) = prefix 256 message
diag_message _ = ""

-- The snapshot of DeviceDiagLog.objects.create; `none` if a number cannot be converted.
unfoldable pub snapshot : ℕ → String → DiagLevel → Dict Json → Option DiagLog
unfolding diag_uint rssi_of diag_message get_or ◌>>=◌
snapshot now device level fields = do
  rssi ← rssi_of (get_or "rssi" Json.null fields)
  reset_cause ← diag_uint (get_or "rst" Json.null fields) 255
  boot ← diag_uint (get_or "boot" Json.null fields) uint_max
  miss ← diag_uint (get_or "miss" Json.null fields) uint_max
  wake_ms ← diag_uint (get_or "wake_ms" Json.null fields) uint_max
  seq ← diag_uint (get_or "seq" Json.null fields) uint_max
  pubfail ← diag_uint (get_or "pubfail" Json.null fields) uint_max
  heap ← diag_uint (get_or "heap" Json.null fields) uint_max
  battery_percent ← diag_uint (get_or "bat" Json.null fields) 100
  txsent ← diag_uint (get_or "txsent" Json.null fields) uint_max
  txok ← diag_uint (get_or "txok" Json.null fields) uint_max
  some (record {
    time = now;
    device = device;
    level = level;
    message = diag_message (get_or "message" (Json.str "") fields);
    reset_cause = reset_cause;
    boot = boot;
    miss = miss;
    wake_ms = wake_ms;
    seq = seq;
    pubfail = pubfail;
    rssi = rssi;
    heap = heap;
    battery_percent = battery_percent;
    txsent = txsent;
    txok = txok;
  })

-- The alert that a snapshot stands for: ok and info clear it.
unfoldable pub diag_alert : ℕ → DiagLevel → String → Device → Device
diag_alert now DiagLevel.ok message d = set_alert clear "" none d
diag_alert now DiagLevel.info message d = set_alert clear "" none d
diag_alert now DiagLevel.warning message d = set_alert AlertLevel.warning message (some now) d
diag_alert now DiagLevel.error message d = set_alert AlertLevel.error message (some now) d

unfoldable pub level_eq : AlertLevel → AlertLevel → Bool
level_eq clear clear = true
level_eq AlertLevel.warning AlertLevel.warning = true
level_eq AlertLevel.error AlertLevel.error = true
level_eq _ _ = false

-- `changed`
unfoldable pub alert_changed : Device → Device → Bool
unfolding level_eq
alert_changed old d =
    not (level_eq old.alert_level d.alert_level && (old.alert_message == d.alert_message))

unfoldable pub report_diag : ℕ → DiagLog → Run → World
unfolding diag_alert alert_changed save log_and_announce
report_diag now s r =
    let d = record (diag_alert now s.level s.message r.device) { last_seen = some now } in
    let w =
      save copy_alert_and_last_seen d
        (record r.world { diag_logs = r.world.diag_logs ++ s ∷ [] }) in
    if alert_changed r.device d then log_and_announce now d w else w

abbrev pub diag_parsed : ℕ → Run → Option DiagLog → Outcome × World
diag_parsed now r none = (raised, r.world)
diag_parsed now r (some s) = (handled, report_diag now s r)

abbrev pub diag_at : ℕ → Dict Json → Run → Option DiagLevel → Outcome × World
diag_at now fields r none = (rejected invalid_level, r.world)
diag_at now fields r (some level) = diag_parsed now r (snapshot now r.device.device_id level fields)

unfoldable pub diag_body : ℕ → Dict Json → Run → Outcome × World
unfolding diag_level snapshot report_diag get_or
diag_body now fields r = diag_at now fields r (diag_level (get_or "level" (Json.str "ok") fields))

-- handle_diag_message
unfoldable pub handle_diag_message : Handler
unfolding decode with_device diag_body
handle_diag_message py now device_type device_id payload w =
    with_device (decode py payload) device_id (diag_body now) w
