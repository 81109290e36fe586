-- ===== src/Devices/Actions.antt =====
-- What the actions of Devices/Admin.antt may change: those that command or edit a device.
use sensor_server.Prelude.{
  ℕ, ◌≤◌, String, ◌≡◌, ◌≢◌, refl, Bool, true, false, not, Option, none, some, List, arith, if_cases,
  ◌==◌, ℤ, pos, negsuc,
}
use sensor_server.Text.{is_empty, len}
use sensor_server.Value.{Dict}
use sensor_server.Store.{Device}
use sensor_server.World.{World, Run, find_device, mqtt_publish}
use sensor_server.Mqtt.Effects.{Effects, done, sends, IsValid, IsOneShot}
use sensor_server.Mqtt.Effects.Closure.{one, and_then}
use sensor_server.Mqtt.Effects.Frame.{SameFor, Effects-SameFor}
use sensor_server.Mqtt.Effects.Lifecycle.{Evolves, Effects-Evolves}
use sensor_server.Mqtt.Effects.Records.{Extends, Effects-outbox}
use sensor_server.Mqtt.Effects.Devices.{approval, Effects-approval, AllValid, Effects-AllValid}
use sensor_server.Mqtt.Confined.{Found, Found-device_id, save-Reaches}
use sensor_server.Mqtt.Confined.Requests.{create_command-Quiet}
use sensor_server.Ota.Catalog.{Firmware}
use sensor_server.Ota.Push.{Push, send_ota_update, pushed, ota_message, ota_command, is_compatible}
use sensor_server.Devices.Console.{Console, Answer}
use sensor_server.Devices.Admin.{
  clamped, copy_edited, edited, fits, edit, push_answer, push_chosen, Shelf, push_key, ota_push,
  Action, act_calibrate, act_set_calibration, act_confirm_uplink, act_request_calibration,
  act_request_status, act_request_diag, act_request_capabilities, act_command, act_approve,
  act_push, act_rename, act_edit, act_delete_command, act_clear_commands, act_delete, perform,
  administer_found, administer,
}
use sensor_server.Devices.Administered.{
  Stays, post_calibration-Stays, post_set_calibration-Stays, post_request_calibration-Stays,
  post_request_status-Stays, post_request_diag-Stays, post_request_capabilities-Stays,
  post_set_confirm_uplink-Stays, post_command-Stays,
}

clamped_le :
    (low high old : ℕ) (n : Option ℤ) → low ≤ high → old ≤ high → clamped low high old n ≤ high
clamped_le low high old none h k = k
clamped_le low high old (some (pos n)) h k = omega arith
clamped_le low high old (some (negsuc n)) h k = h

fits-bounds :
    (d : Device)
    → fits d ≡ true
    → (len d.display_name ≤ 128) × (len d.location ≤ 128) × (len d.location_type ≤ 16)
unfolding fits
fits-bounds d ok = (ground arith, ground arith, ground arith)

edited-IsValid :
    (env : Console) (form : Dict String) (visible : List String) (d : Device)
    → fits (edited env form visible d) ≡ true
    → IsValid d
    → IsValid (edited env form visible d)
unfolding edited fits
edited-IsValid env form visible d ok v = record {
  quiet = v.quiet;
  message_fits = v.message_fits;
  hardware_id_fits = v.hardware_id_fits;
  fw_version_fits = v.fw_version_fits;
  device_type_fits = v.device_type_fits;
  hw_rev_fits = v.hw_rev_fits;
  interval_fits = clamped_le 0 86400 d.publish_interval _ (omega arith) v.interval_fits;
  display_name_fits = (fits-bounds (edited env form visible d) ok).0;
  location_fits = (fits-bounds (edited env form visible d) ok).1;
  location_type_fits = (fits-bounds (edited env form visible d) ok).2;
  cells_fit = clamped_le 1 10 d.battery_cell_count _ (omega arith) v.cells_fit;
}

module _ (now : ℕ) (id : String) where
  edit-Stays :
      (env : Console) (form : Dict String) (visible : List String) (r : Run)
      → Found id r
      → Stays now id r (edit env form visible r)
  unfolding edit
  edit-Stays env form visible r h =
      if_cases (Stays now id r) (fits (edited env form visible r.device))
        (λ ok.
          (save-Reaches copy_edited (edited env form visible r.device) r h (λ row. refl)
            (unfold edited in refl) (unfold edited in refl) (unfold edited in refl)
            (edited-IsValid env form visible r.device ok)).effects)
        (λ _. done)

  pushed-Stays :
      (base : String) (f : Firmware) (by : Option ℕ) (r : Run) (o : Bool × World)
      → Found id r
      → Effects now id r.world o.1
      → Effects now id r.world (pushed now base f by r.device o).1
  pushed-Stays base f by r (false, w) h e = e
  pushed-Stays base f by r (true, w) h e =
      and_then e
        (create_command-Quiet r.device (ota_command base f) by w (Found-device_id id r h)).effects

  send_ota_update-Stays :
      (base : String) (f : Firmware) (by : Option ℕ) (r : Run)
      → Found id r
      → Effects now id r.world (send_ota_update now base f by r.device r.world).1
  unfolding send_ota_update
  send_ota_update-Stays base f by r h =
      if_cases (λ (o : Push × World). Effects now id r.world o.1) (not r.device.ota_capable)
        (λ _. done)
        (λ _.
          if_cases (λ (o : Push × World). Effects now id r.world o.1)
            (not (is_compatible r.device f)) (λ _. done)
            (λ _.
              if_cases (λ (o : Push × World). Effects now id r.world o.1) (is_empty base)
                (λ _. done)
                (λ _.
                  pushed-Stays base f by r (mqtt_publish (ota_message base f r.device) r.world) h
                    (one (sends _ (record { not_retained = refl; queued = refl }))))))

  push_answer-Stays :
      (r : Run) (o : Push × World) → Effects now id r.world o.1 → Stays now id r (push_answer o)
  push_answer-Stays r (Push.sent, w) e = e
  push_answer-Stays r (Push.not_capable, w) e = e
  push_answer-Stays r (Push.incompatible, w) e = e
  push_answer-Stays r (Push.no_base_url, w) e = e
  push_answer-Stays r (Push.unpublished, w) e = e

  push_chosen-Stays :
      (base : String) (by : Option ℕ) (r : Run) (o : Option Firmware)
      → Found id r
      → Stays now id r (push_chosen now base by r o)
  unfolding push_chosen
  push_chosen-Stays base by r none h = done
  push_chosen-Stays base by r (some f) h =
      push_answer-Stays r (send_ota_update now base f by r.device r.world)
        (send_ota_update-Stays base f by r h)

  push_key-Stays :
      (shelf : Shelf) (by : Option ℕ) (r : Run) (o : Option (Option ℤ))
      → Found id r
      → Stays now id r (push_key shelf now by r o)
  unfolding push_key
  push_key-Stays shelf by r none h = push_chosen-Stays shelf.base_url by r none h
  push_key-Stays shelf by r (some none) h = done
  push_key-Stays shelf by r (some (some key)) h = push_chosen-Stays shelf.base_url by r _ h

-- The actions that neither approve nor rename nor delete.
abbrev pub IsCommand : Action → Type 0
IsCommand (act_approve form) = ⊥
IsCommand (act_delete_command pk) = ⊥
IsCommand (act_rename form) = ⊥
IsCommand act_clear_commands = ⊥
IsCommand act_delete = ⊥
IsCommand _ = Unit

pub perform-Stays :
    (env : Console) (shelf : Shelf) (now : ℕ) (by : Option ℕ) (id : String) (act : Action) (r : Run)
    → IsCommand act
    → Found id r
    → Stays now id r (perform env shelf now by act r)
unfolding perform ota_push
perform-Stays env shelf now by id (act_calibrate form) r c h =
    post_calibration-Stays now id env by form r h
perform-Stays env shelf now by id (act_set_calibration form) r c h =
    post_set_calibration-Stays now id env by form r h
perform-Stays env shelf now by id (act_confirm_uplink form) r c h =
    post_set_confirm_uplink-Stays now id by form r h
perform-Stays env shelf now by id act_request_calibration r c h =
    post_request_calibration-Stays now id r
perform-Stays env shelf now by id act_request_status r c h = post_request_status-Stays now id r h
perform-Stays env shelf now by id act_request_diag r c h = post_request_diag-Stays now id r h
perform-Stays env shelf now by id act_request_capabilities r c h =
    post_request_capabilities-Stays now id by r h
perform-Stays env shelf now by id (act_command form) r c h =
    post_command-Stays now id env by form r h
perform-Stays env shelf now by id (act_approve form) r c h = absurd c
perform-Stays env shelf now by id (act_push form) r c h = push_key-Stays now id shelf by r _ h
perform-Stays env shelf now by id (act_edit form visible) r c h =
    edit-Stays now id env form visible r h
perform-Stays env shelf now by id (act_delete_command pk) r c h = absurd c
perform-Stays env shelf now by id (act_rename form) r c h = absurd c
perform-Stays env shelf now by id act_clear_commands r c h = absurd c
perform-Stays env shelf now by id act_delete r c h = absurd c

pub administer-Effects :
    (env : Console) (shelf : Shelf) (now : ℕ) (by : Option ℕ) (method id : String) (act : Action)
    (w : World) (o : Option Device)
    → find_device id w.devices ≡ o
    → IsCommand act
    → Effects now id w (administer_found env shelf now by method act w o).1
unfolding administer_found
administer-Effects env shelf now by method id act w none h c = done
administer-Effects env shelf now by method id act w (some d) h c =
    if_cases (λ (o : Answer × World). Effects now id w o.1) (not (method == "POST")) (λ _. done)
      (λ _. perform-Stays env shelf now by id act (record { device = d; world = w }) c h)

-- What a command or an edit for the device `id` keeps.
pub record IsConfined (id : String) (w v : World) : Type 0 where
  pub others : (j : String) → j ≢ id → SameFor j w v
  pub log : Evolves w.commands v.commands
  pub outbox : Extends IsOneShot w.outbox v.outbox
  pub approvals :
      (j : String) → approval (find_device j v.devices) ≡ approval (find_device j w.devices)
  pub valid : AllValid w → AllValid v

-- For each view that commands or edits a device, so none that approves, renames or deletes, whatever
-- the form, the method and the answer, an error included: nothing of another device changes, no row
-- of the command log changes but from pending to an end, what goes out is queued and not retained, no
-- approval changes, and the bounds of `IsValid`, those of the texts and numbers of the edit form among
-- them, hold for every device if they held before.
pub administer-IsConfined :
    (env : Console) (shelf : Shelf) (now : ℕ) (by : Option ℕ) (method id : String) (act : Action)
    (w : World)
    → IsCommand act
    → IsConfined id w (administer env shelf now by method id act w).1
unfolding administer
administer-IsConfined env shelf now by method id act w c =
    let e = administer-Effects env shelf now by method id act w (find_device id w.devices) refl c in
    record {
      others = λ j ne. Effects-SameFor j ne e;
      log = Effects-Evolves e;
      outbox = Effects-outbox e;
      approvals = λ j. Effects-approval j e;
      valid = Effects-AllValid e;
    }
