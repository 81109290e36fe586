-- ===== src/Devices/Administered.antt =====
-- What the views of Devices/Admin.antt may change: the ones that command or edit a device stay
-- inside the writes of Mqtt/Effects.antt, and all of them stay with their device.
use sensor_server.Prelude.{
  ℕ, String, ◌≡◌, refl, Bool, true, false, not, ◌||◌, Option, none, some, any, arith, if_cases,
  if◌then◌else◌, ◌==◌, leb,
}
use sensor_server.Text.{len, is_empty, concat, safe_identifier_re}
use sensor_server.Value.{Json, Float, Dict, put}
use sensor_server.Store.{Device, supports_diag}
use sensor_server.World.{World, Run, create_command}
use sensor_server.Mqtt.Requests.{action, send_command, request_calibration}
use sensor_server.Mqtt.Effects.{Effects, done}
use sensor_server.Mqtt.Effects.Closure.{and_then}
use sensor_server.Mqtt.Confined.{
  Found, Found-device_id, Quiet, Quiet-Reaches, Quiet-trans, save-Reaches,
}
use sensor_server.Mqtt.Confined.Requests.{
  send_command-Quiet, request_commands-Reaches, request_status-Reaches, request_diag-Reaches,
  request_capabilities-Reaches, create_command-Quiet,
}
use sensor_server.Devices.Console.{
  Console, Answer, bad_request, form_text, written, publish_calibration_command, mirrored,
  copy_calibration, rounded, offset_command, set_offset, post_calibration, value_command, set_value,
  post_set_calibration, post_request_calibration, post_request_status, post_request_diag,
  post_request_capabilities, confirm_command, logged, post_set_confirm_uplink, commanded,
  command_of, send_loaded, post_command, calibration_metrics,
}

-- The writes of a view.
abbrev pub Stays : ℕ → String → Run → Answer × World → Type 0
Stays now id r o = Effects now id r.world o.1

module _ (now : ℕ) (id : String) where
  if-Stays :
      (r : Run) (b : Bool) (o p : Answer × World)
      → Stays now id r o
      → Stays now id r p
      → Stays now id r (if b then o else p)
  if-Stays r true o p h k = h
  if-Stays r false o p h k = k

  sent-Effects :
      (r : Run) (command : Json) → Effects now id r.world (send_command r.device command r.world).1
  sent-Effects r command = (send_command-Quiet r.device command r.world).effects

  mirrored-Effects :
      (key : String) (value : Float) (d : Device) (w : World) (o : Bool × World)
      → Quiet now id w o.1
      → Found id (record { device = d; world = w })
      → Effects now id w (mirrored key value d o).1
  unfolding mirrored
  mirrored-Effects key value d w (false, v) q h = q.effects
  mirrored-Effects key value d w (true, v) q h =
      let sent = Quiet-Reaches (record { device = d; world = w }) v h q in
      and_then q.effects
        (save-Reaches copy_calibration
          (record d { calibration = put key (Json.float value) d.calibration })
          (record { device = d; world = v }) sent.found (λ row. refl) refl refl refl
          (λ v. ground arith)).effects

  written-Quiet :
      (env : Console) (command : Json) (by : Option ℕ) (d : Device) (w : World) (o : Bool × World)
      → Quiet now id w o.1
      → d.device_id ≡ id
      → Quiet now id w (written env now command by d o).1
  unfolding written
  written-Quiet env command by d w (false, v) q own = q
  written-Quiet env command by d w (true, v) q own =
      if_cases (λ (o : Bool × World). Quiet now id w o.1) (env.is_storable command)
        (λ _. Quiet-trans q (create_command-Quiet d command by v own)) (λ _. q)

  publish_calibration_command-Quiet :
      (env : Console) (command : Json) (by : Option ℕ) (r : Run)
      → Found id r
      → Quiet now id r.world (publish_calibration_command env now command by r.device r.world).1
  unfolding publish_calibration_command
  publish_calibration_command-Quiet env command by r h =
      written-Quiet env command by r.device r.world (send_command r.device command r.world)
        (send_command-Quiet r.device command r.world) (Found-device_id id r h)

  set_offset-Stays :
      (env : Console) (by : Option ℕ) (metric : String) (r : Run) (o : Option Float)
      → Found id r
      → Stays now id r (set_offset env now by metric r o)
  unfolding set_offset
  set_offset-Stays env by metric r none h = done
  set_offset-Stays env by metric r (some value) h =
      mirrored-Effects (concat "cal_" metric) value r.device r.world
        (publish_calibration_command env now (offset_command metric value) by r.device r.world)
        (publish_calibration_command-Quiet env (offset_command metric value) by r h) h

  pub post_calibration-Stays :
      (env : Console) (by : Option ℕ) (form : Dict String) (r : Run)
      → Found id r
      → Stays now id r (post_calibration env now by form r)
  unfolding post_calibration
  post_calibration-Stays env by form r h =
      let metric = env.strip (form_text "metric" "" form) in
      if-Stays r (not (any (λ k. k == metric) calibration_metrics))
        (bad_request "Invalid metric.", r.world)
        (set_offset env now by metric r (rounded 2 (env.parse_float (form_text "value" "0" form))))
        done
        (set_offset-Stays env by metric r (rounded 2 (env.parse_float (form_text "value" "0" form)))
          h)

  set_value-Stays :
      (env : Console) (by : Option ℕ) (key : String) (r : Run) (o : Option Float)
      → Found id r
      → Stays now id r (set_value env now by key r o)
  unfolding set_value
  set_value-Stays env by key r none h = done
  set_value-Stays env by key r (some value) h =
      mirrored-Effects key value r.device r.world
        (publish_calibration_command env now (value_command key value) by r.device r.world)
        (publish_calibration_command-Quiet env (value_command key value) by r h) h

  pub post_set_calibration-Stays :
      (env : Console) (by : Option ℕ) (form : Dict String) (r : Run)
      → Found id r
      → Stays now id r (post_set_calibration env now by form r)
  unfolding post_set_calibration
  post_set_calibration-Stays env by form r h =
      let key = env.strip (form_text "key" "" form) in
      if-Stays r (not (safe_identifier_re key) || not (leb (len key) 64))
        (bad_request "Invalid calibration key.", r.world)
        (set_value env now by key r (rounded 4 (env.parse_float (form_text "value" "0" form)))) done
        (set_value-Stays env by key r (rounded 4 (env.parse_float (form_text "value" "0" form))) h)

  pub post_request_calibration-Stays : (r : Run) → Stays now id r (post_request_calibration r)
  unfolding post_request_calibration request_calibration
  post_request_calibration-Stays r = sent-Effects r (action "request_calibration")

  pub post_request_status-Stays : (r : Run) → Found id r → Stays now id r (post_request_status r)
  unfolding post_request_status
  post_request_status-Stays r h =
      if_cases (Stays now id r) (not (supports_diag r.device)) (λ _. done)
        (λ _. (request_status-Reaches r h).effects)

  pub post_request_diag-Stays : (r : Run) → Found id r → Stays now id r (post_request_diag r)
  unfolding post_request_diag
  post_request_diag-Stays r h =
      if_cases (Stays now id r) (not (supports_diag r.device)) (λ _. done)
        (λ _. (request_diag-Reaches r h).effects)

  pub post_request_capabilities-Stays :
      (by : Option ℕ) (r : Run) → Found id r → Stays now id r (post_request_capabilities now by r)
  unfolding post_request_capabilities
  post_request_capabilities-Stays by r h =
      let asked = request_capabilities-Reaches by true r h in
      and_then asked.effects (request_commands-Reaches _ asked.found).effects

  logged-Effects :
      (command : Json) (by : Option ℕ) (d : Device) (w : World) (o : Bool × World)
      → Effects now id w o.1
      → d.device_id ≡ id
      → Effects now id w (logged now command by d o).1
  unfolding logged
  logged-Effects command by d w (false, v) e own = e
  logged-Effects command by d w (true, v) e own =
      and_then e (create_command-Quiet d command by v own).effects

  pub post_set_confirm_uplink-Stays :
      (by : Option ℕ) (form : Dict String) (r : Run)
      → Found id r
      → Stays now id r (post_set_confirm_uplink now by form r)
  unfolding post_set_confirm_uplink
  post_set_confirm_uplink-Stays by form r h =
      let command = confirm_command (if form_text "value" "" form == "1" then 1 else 0) in
      let sent = send_command r.device command r.world in
      if-Stays r (not (supports_diag r.device))
        (bad_request "Device does not support uplink confirmation.", r.world)
        (logged now command by r.device sent) done
        (logged-Effects command by r.device r.world sent (sent-Effects r command)
          (Found-device_id id r h))

  commanded-Stays :
      (env : Console) (command : Json) (by : Option ℕ) (r : Run) (o : Bool × World)
      → Found id r
      → Quiet now id r.world o.1
      → Stays now id r (commanded env now command by r.device o)
  unfolding commanded
  commanded-Stays env command by r (false, v) h q = q.effects
  commanded-Stays env command by r (true, v) h q =
      let own = Found-device_id id r h in
      let created = Quiet-trans q (create_command-Quiet r.device command by v own) in
      let reached = Quiet-Reaches r (create_command now r.device command by v) h created in
      if_cases (Stays now id r) (env.is_storable command)
        (λ _.
          and_then created.effects
            (request_capabilities-Reaches none false
              (record { device = r.device; world = create_command now r.device command by v })
              reached.found).effects)
        (λ _. q.effects)

  send_loaded-Stays :
      (env : Console) (by : Option ℕ) (r : Run) (o : Option Json)
      → Found id r
      → Stays now id r (send_loaded env now by r o)
  unfolding send_loaded
  send_loaded-Stays env by r none h = done
  send_loaded-Stays env by r (some command) h =
      commanded-Stays env command by r (send_command r.device command r.world) h
        (send_command-Quiet r.device command r.world)

  pub post_command-Stays :
      (env : Console) (by : Option ℕ) (form : Dict String) (r : Run)
      → Found id r
      → Stays now id r (post_command env now by form r)
  unfolding post_command
  post_command-Stays env by form r h =
      let text = env.strip (form_text "command" "" form) in
      if-Stays r (is_empty text) (bad_request "Empty command.", r.world)
        (send_loaded env now by r (command_of text (env.loads text))) done
        (send_loaded-Stays env by r (command_of text (env.loads text)) h)
