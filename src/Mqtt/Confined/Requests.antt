-- ===== src/Mqtt/Confined/Requests.antt =====
-- The helpers of Requests.antt are confined to the device.
use sensor_server.Prelude.{
  ℕ, String, ◌≡◌, refl, Bool, true, List, [], ◌∷◌, Option, some, arith, ltb, select, ◌+◌, ◌*◌,
}
use sensor_server.Text.{concat}
use sensor_server.Value.{Json, Dict, is_number}
use sensor_server.Store.{Device, second}
use sensor_server.World.{
  World, Run, CommandLog, Status, success, timeout, is_terminal, mqtt_publish, create_command, save,
}
use sensor_server.Mqtt.Effects.{sends, creates}
use sensor_server.Mqtt.Effects.Closure.{one}
use sensor_server.Mqtt.Requests.{
  send_command, capabilities_requested, request_capabilities, request_commands, request_status,
  request_diag, maybe_request_diag, should_poll, diag_polled, repush_entries, repush_calibration,
  calibration_command, resolve_ota_updates, runs_target, check_ota_timeouts, ota_timeout,
  order_by_sent_at, awaits_flush, show, action, copy_capabilities_requested_at,
  copy_diag_requested_at, resolve_capability_requests, publish_commands, flush_pending_commands,
}
use sensor_server.Mqtt.Confined.{
  Found, Quiet, Reaches, Quiet-refl, Quiet-trans, Quiet-if, Reaches-refl, Reaches-trans, Reaches-if,
  Quiet-Reaches, Found-device_id, save-Reaches, marks-Quiet, All-of, pending_with-selects,
  pending_with-selects_one,
}

module _ {now : ℕ} {id : String} where
  pub send_command-Quiet :
      (d : Device) (payload : Json) (w : World) → Quiet now id w (send_command d payload w).1
  unfolding send_command
  send_command-Quiet d payload w = record {
    effects = one (sends _ (record { not_retained = refl; queued = refl }));
    devices = unfold mqtt_publish in ground arith;
  }

  pub repush_entries-Quiet :
      (d : Device) (mirror : Dict Json) (w : World) → Quiet now id w (repush_entries d mirror w)
  unfolding repush_entries
  repush_entries-Quiet d [] w = Quiet-refl w
  repush_entries-Quiet d ((key, value) ∷ mirror) w =
      Quiet-trans
        (Quiet-if (is_number value) (send_command-Quiet d (calibration_command key value) w)
          (Quiet-refl w))
        (repush_entries-Quiet d mirror _)

  pub repush_calibration-Quiet : (d : Device) (w : World) → Quiet now id w (repush_calibration d w)
  unfolding repush_calibration
  repush_calibration-Quiet d w = repush_entries-Quiet d d.calibration w

  publish_commands-Quiet :
      (d : Device) (cs : List CommandLog) (w : World) → Quiet now id w (publish_commands d cs w)
  unfolding publish_commands
  publish_commands-Quiet d [] w = Quiet-refl w
  publish_commands-Quiet d (c ∷ cs) w =
      Quiet-trans (send_command-Quiet d c.command w) (publish_commands-Quiet d cs _)

  pub flush-Quiet : (d : Device) (w : World) → Quiet now id w (flush_pending_commands d w)
  unfolding flush_pending_commands
  flush-Quiet d w =
      publish_commands-Quiet d (order_by_sent_at (select (awaits_flush d.device_id) w.commands)) w

  pub resolve_ota_updates-Quiet :
      (d : Device) (w : World) → d.device_id ≡ id → Quiet now id w (resolve_ota_updates now d w)
  unfolding resolve_ota_updates
  resolve_ota_updates-Quiet d w own =
      marks-Quiet success (concat "Running " d.fw_version) _ w refl
        (All-of _ (pending_with-selects id d.device_id _ (runs_target d) own) w.commands)

  pub check_ota_timeouts-Quiet :
      (d : Device) (w : World) → d.device_id ≡ id → Quiet now id w (check_ota_timeouts now d w)
  unfolding check_ota_timeouts
  check_ota_timeouts-Quiet d w own =
      marks-Quiet timeout (concat "No confirmation within " (concat (show (ota_timeout d)) "s")) _ w
        refl
        (All-of _
          (pending_with-selects id d.device_id _ (λ c. ltb (c.sent_at + ota_timeout d * second) now)
            own)
          w.commands)

  pub resolve_capability_requests-Quiet :
      (d : Device) (status : Status) (message : String) (w : World)
      → is_terminal status ≡ true
      → d.device_id ≡ id
      → Quiet now id w (resolve_capability_requests d status message now w)
  unfolding resolve_capability_requests
  resolve_capability_requests-Quiet d status message w terminal own =
      marks-Quiet status message _ w terminal (
        All-of _ (pending_with-selects_one id d.device_id (Json.str "request_capabilities") own)
          w.commands)

  pub request_commands-Reaches : (r : Run) → Found id r → Reaches now id r (request_commands r)
  unfolding request_commands
  request_commands-Reaches r h = Quiet-Reaches r _ h (send_command-Quiet r.device _ r.world)

  pub request_status-Reaches : (r : Run) → Found id r → Reaches now id r (request_status r)
  unfolding request_status
  request_status-Reaches r h = Quiet-Reaches r _ h (send_command-Quiet r.device _ r.world)

  pub request_diag-Reaches : (r : Run) → Found id r → Reaches now id r (request_diag r)
  unfolding request_diag
  request_diag-Reaches r h = Quiet-Reaches r _ h (send_command-Quiet r.device _ r.world)

  pub create_command-Quiet :
      (d : Device) (command : Json) (sent_by : Option ℕ) (w : World)
      → d.device_id ≡ id
      → Quiet now id w (create_command now d command sent_by w)
  create_command-Quiet d command sent_by w own = record {
    effects = one (creates d command sent_by own);
    devices = unfold create_command in refl;
  }

  capabilities_requested-Reaches :
      (sent_by : Option ℕ) (log_command : Bool) (r : Run)
      → Found id r
      → Reaches now id r (capabilities_requested now sent_by log_command r)
  unfolding capabilities_requested
  capabilities_requested-Reaches sent_by log_command r h =
      let d = record r.device { capabilities_requested_at = some now } in
      let s = record r { device = d; world = save copy_capabilities_requested_at d r.world } in
      let saved =
        save-Reaches copy_capabilities_requested_at d r h (λ row. refl) refl refl refl
          (λ v. ground arith) in
      Reaches-trans saved (
        Quiet-Reaches s _ saved.found (
          Quiet-if log_command
            (create_command-Quiet d (action "request_capabilities") sent_by s.world
              (Found-device_id id s saved.found))
            (Quiet-refl s.world)))

  pub request_capabilities-Reaches :
      (sent_by : Option ℕ) (log_command : Bool) (r : Run)
      → Found id r
      → Reaches now id r (request_capabilities now sent_by log_command r)
  unfolding request_capabilities
  request_capabilities-Reaches sent_by log_command r h =
      let (taken, w) = send_command r.device (action "request_capabilities") r.world in
      let sent = Quiet-Reaches r w h (send_command-Quiet r.device _ r.world) in
      Reaches-if taken
        (Reaches-trans sent
          (capabilities_requested-Reaches sent_by log_command (record r { world = w }) sent.found))
        sent

  pub diag_polled-Reaches : (r : Run) → Found id r → Reaches now id r (diag_polled now r)
  unfolding diag_polled
  diag_polled-Reaches r h =
      save-Reaches copy_diag_requested_at (record r.device { diag_requested_at = some now }) r h
        (λ row. refl) refl refl refl (λ v. ground arith)

  pub maybe_request_diag-Reaches :
      (r : Run) → Found id r → Reaches now id r (maybe_request_diag now r)
  unfolding maybe_request_diag
  maybe_request_diag-Reaches r h =
      let asked = request_diag-Reaches r h in
      Reaches-if (should_poll now r.device)
        (Reaches-trans asked (diag_polled-Reaches (request_diag r) asked.found)) (Reaches-refl r h)
