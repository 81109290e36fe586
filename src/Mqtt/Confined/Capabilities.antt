-- ===== src/Mqtt/Confined/Capabilities.antt =====
-- `handle_capabilities_message` is confined to its device, and what it stores is within bounds.
use native.Mathlib.Nat.{div-le_of_le-mul}
use sensor_server.Prelude.{
  some, none, ℕ, zero, suc, ◌≤◌, ◌/◌, ◌^◌, String, ℤ, pos, negsuc, abs, ◌≡◌, refl, ◌∙◌, and-left,
  and-right, Bool, true, false, ◌&&◌, List, Option, arith, if_cases, leb→le, with_sign_of,
  if◌then◌else◌,
}
use sensor_server.Text.{len}
use sensor_server.Value.{
  Json, Float, finite, pos_inf, neg_inf, nan, Dict, Python, get_or, float_gt, float_le, truncate,
}
use sensor_server.Store.{Device, nonempty}
use sensor_server.World.{World, Run, World, Run, success, save, log_status}
use sensor_server.Mqtt.Payload.{Outcome, decode}
use sensor_server.Mqtt.Alert.{clear_alert}
use sensor_server.Mqtt.Requests.{resolve_capability_requests, resolve_ota_updates}
use sensor_server.Mqtt.Capabilities.{
  is_smallint, hardware_id_of, fw_version_of, whole_seconds, publish_interval_of, identified,
  had_timeout_alert, clear_timeout_alert, copy_identity, capabilities_saved, store_empty,
  capabilities_body, handle_capabilities_message,
}
use sensor_server.Mqtt.Effects.{done, Effects, IsValid, AtMost}
use sensor_server.Mqtt.Effects.Closure.{and_then}
use sensor_server.Mqtt.Confined.{
  Found, Quiet, Quiet-trans, Quiet-if, Quiet-Reaches, Found-device_id, save-Reaches,
  log_status-Quiet,
}
use sensor_server.Mqtt.Confined.Requests.{
  repush_calibration-Quiet, resolve_ota_updates-Quiet, resolve_capability_requests-Quiet,
}
use sensor_server.Mqtt.Confined.Arrival.{clear_alert-IsValid}
use sensor_server.Mqtt.Confined.Reports.{with_device-Effects}

hardware_id_of-fits : (v : Json) (old : String) → len old ≤ 256 → len (hardware_id_of v old) ≤ 256
unfolding hardware_id_of
hardware_id_of-fits (Json.str id) old h = ground arith
hardware_id_of-fits _ old h = h

is_smallint-AtMost : (o : Option ℕ) → is_smallint o ≡ true → AtMost 32767 o
is_smallint-AtMost none h = tt
is_smallint-AtMost (some n) h = leb→le n 32767 h

fw_version_of-fits : (v : Json) (old : String) → len old ≤ 32 → len (fw_version_of v old) ≤ 32
unfolding fw_version_of
fw_version_of-fits (Json.str fw) old h = ground arith
fw_version_of-fits _ old h = h

abs-with_sign_of : (n : ℤ) (m : ℕ) → abs (with_sign_of n m) ≡ m
unfolding with_sign_of
abs-with_sign_of (pos n) m = refl
abs-with_sign_of (negsuc n) zero = refl
abs-with_sign_of (negsuc n) (suc m) = refl

-- The whole part of a positive number that is at most `c` is at most `c`.
truncate-le :
    (x : Float) (c old : ℕ)
    → float_gt x 0 ≡ true
    → float_le x c ≡ true
    → old ≤ c
    → whole_seconds (truncate x) old ≤ c
unfolding truncate float_gt float_le
truncate-le (finite (pos n) k) c old g h b =
    rw (abs-with_sign_of (pos n) (n / 10 ^ k))
      (div-le_of_le-mul (10 ^ k) {m = n} {n = c} (ground arith))
truncate-le (finite (negsuc n) k) c old g h b = ground arith
truncate-le pos_inf c old g h b = b
truncate-le neg_inf c old g h b = b
truncate-le nan c old g h b = b

publish_interval_of-fits : (v : Json) (old : ℕ) → old ≤ 86400 → publish_interval_of v old ≤ 86400
unfolding publish_interval_of
publish_interval_of-fits (Json.bool true) old h = omega arith
publish_interval_of-fits (Json.int (pos n)) old h = ground arith
publish_interval_of-fits (Json.float x) old h =
    if_cases (λ n. n ≤ 86400) (float_gt x 0 && float_le x 86400)
      (λ e. truncate-le x 86400 old (and-left _ _ e) (and-right _ _ e) h) (λ _. h)
publish_interval_of-fits _ old h = h

identified-IsValid :
    (codes : List String) (fields : Dict Json) (d : Device)
    → is_smallint (identified codes fields d).hw_rev ≡ true
    → IsValid d
    → IsValid (identified codes fields d)
unfolding identified
identified-IsValid codes fields d small v = record {
  quiet = v.quiet;
  message_fits = v.message_fits;
  hardware_id_fits =
      hardware_id_of-fits (get_or "id" (Json.str "") fields) d.hardware_id v.hardware_id_fits;
  fw_version_fits =
      fw_version_of-fits (get_or "fw" (Json.str "") fields) d.fw_version v.fw_version_fits;
  device_type_fits = v.device_type_fits;
  hw_rev_fits = is_smallint-AtMost _ small;
  interval_fits =
      publish_interval_of-fits (get_or "intrvl" (Json.int (pos 0)) fields) d.publish_interval
        v.interval_fits;
  display_name_fits = v.display_name_fits;
  location_fits = v.location_fits;
  location_type_fits = v.location_type_fits;
  cells_fit = v.cells_fit;
}

identified-device_id :
    (codes : List String) (fields : Dict Json) (d : Device)
    → (identified codes fields d).device_id ≡ d.device_id
unfolding identified
identified-device_id codes fields d = refl

capabilities_saved-Quiet :
    {now : ℕ} {id : String} (empty : Bool) (d : Device) (w : World)
    → d.device_id ≡ id
    → Quiet now id w (capabilities_saved now empty d w)
unfolding capabilities_saved
capabilities_saved-Quiet {now} empty d w own =
    let w1 = resolve_capability_requests d success "" now w in
    let w2 = resolve_ota_updates now d w1 in
    let resolved =
      Quiet-trans (resolve_capability_requests-Quiet d success "" w refl own)
        (resolve_ota_updates-Quiet d w1 own) in
    Quiet-if (empty && nonempty d.calibration)
      (Quiet-trans resolved (repush_calibration-Quiet d w2)) resolved

-- The identity, saved with the alert as it was or cleared.
identity-Effects :
    (now : ℕ) (id : String) (empty cleared : Bool) (fields : Dict Json) (r : Run)
    → Found id r
    → is_smallint (identified r.world.hardware_codes fields r.device).hw_rev ≡ true
    → Effects now id r.world (
        let d = identified r.world.hardware_codes fields r.device in
        let c =
          if cleared
          then record { device = clear_alert d; world = log_status now (clear_alert d) r.world }
          else record r { device = d } in
        capabilities_saved now empty c.device (save copy_identity c.device c.world))
identity-Effects now id empty true fields r h small =
    let d = clear_alert (identified r.world.hardware_codes fields r.device) in
    let w = log_status now d r.world in
    let own =
      identified-device_id r.world.hardware_codes fields r.device ∙ Found-device_id id r h in
    let logged = Quiet-Reaches r w h (log_status-Quiet d r.world own) in
    let saved =
      save-Reaches copy_identity d (record r { world = w }) logged.found (λ row. refl)
        (unfold identified in refl) (unfold identified in refl) (unfold identified in refl)
        (λ v.
          clear_alert-IsValid _
            (identified-IsValid r.world.hardware_codes fields r.device small v)) in
    and_then logged.effects (
      and_then saved.effects
        (capabilities_saved-Quiet empty d (save copy_identity d w) own).effects)
identity-Effects now id empty false fields r h small =
    let d = identified r.world.hardware_codes fields r.device in
    let own =
      identified-device_id r.world.hardware_codes fields r.device ∙ Found-device_id id r h in
    let saved =
      save-Reaches copy_identity d r h (λ row. refl) (unfold identified in refl)
        (unfold identified in refl) (unfold identified in refl)
        (identified-IsValid r.world.hardware_codes fields r.device small) in
    and_then saved.effects
      (capabilities_saved-Quiet empty d (save copy_identity d r.world) own).effects

capabilities_body-Effects :
    (now : ℕ) (id : String) (fields : Dict Json) (r : Run)
    → Found id r
    → Effects now id r.world (capabilities_body now fields r).1
unfolding capabilities_body clear_timeout_alert
capabilities_body-Effects now id fields r h =
    let d = identified r.world.hardware_codes fields r.device in
    if_cases (λ (o : Outcome × World). Effects now id r.world o.1) (is_smallint d.hw_rev)
      (λ small.
        identity-Effects now id (store_empty (get_or "cal" Json.null fields)) (had_timeout_alert d)
          fields r h small)
      (λ _.
        if_cases (λ (s : Run). Effects now id r.world s.world) (had_timeout_alert d)
          (λ _.
            (log_status-Quiet (clear_alert d) r.world (
              identified-device_id r.world.hardware_codes fields r.device
              ∙ Found-device_id id r h)).effects)
          (λ _. done))

pub handle_capabilities_message-Effects :
    (py : Python) (now : ℕ) (device_type id : String) (payload : List ℕ) (w : World)
    → Effects now id w (handle_capabilities_message py now device_type id payload w).1
unfolding handle_capabilities_message
handle_capabilities_message-Effects py now device_type id payload w =
    with_device-Effects now id (capabilities_body now) (capabilities_body-Effects now id)
      (decode py payload) w
