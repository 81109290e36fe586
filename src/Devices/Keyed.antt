-- ===== src/Devices/Keyed.antt =====
-- The keys of the command log under the views of Devices/Admin.antt.
use sensor_server.Prelude.{
  ℕ, String, ◌≡◌, refl, sym, subst, Bool, not, Option, none, some, if_cases, ◌==◌, select,
}
use sensor_server.Text.{is_empty, safe_identifier_re}
use sensor_server.Value.{Dict}
use sensor_server.Store.{Device}
use sensor_server.World.{World, Run, find_device, save}
use sensor_server.World.Tables.{find_device-device_id}
use sensor_server.Mqtt.Effects.Keys.{
  IsKeyed, Effects-IsKeyed, Ascending-select, Ascending-update_where,
}
use sensor_server.Mqtt.Confined.{Found}
use sensor_server.Devices.Rename.{
  Renaming, rename_device, merge_devices, rename_to, device_rename_view, delete_device,
  move_commands,
}
use sensor_server.Devices.Console.{Console, Answer, form_text}
use sensor_server.Devices.Admin.{
  delete_command, clear_commands, approve, delete, rename, new_device_id, Shelf, Action,
  act_calibrate, act_set_calibration, act_confirm_uplink, act_request_calibration,
  act_request_status, act_request_diag, act_request_capabilities, act_command, act_approve,
  act_push, act_rename, act_edit, act_delete_command, act_clear_commands, act_delete, perform,
  administer_found, administer,
}
use sensor_server.Devices.Actions.{perform-Stays}

-- Rows moved to another device, and those that are left deleted.
moved-IsKeyed :
    (old new : String) (w v : World)
    → v.commands ≡ select (λ c. not (c.device == old)) (move_commands old new w.commands)
    → v.next_pk ≡ w.next_pk
    → IsKeyed w
    → IsKeyed v
unfolding move_commands
moved-IsKeyed old new w v rows next k = record {
  ascending =
      rw (rows, next)
        (Ascending-select 0 w.next_pk (λ c. not (c.device == old)) _
          (Ascending-update_where 0 w.next_pk (λ c. c.device == old)
            (λ c. record c { device = new }) (λ c. refl) w.commands k.ascending));
}

rename_to-IsKeyed :
    (d : Device) (new_id : String) (confirmed : Bool) (w : World) (o : Option Device)
    → IsKeyed w
    → IsKeyed (rename_to d new_id confirmed w o).1
unfolding rename_device merge_devices delete_device
rename_to-IsKeyed d new_id confirmed w none k =
    moved-IsKeyed d.device_id new_id w (rename_device d new_id w) refl refl k
rename_to-IsKeyed d new_id confirmed w (some target) k =
    if_cases (λ (o : Renaming × World). IsKeyed o.1) confirmed
      (λ _. moved-IsKeyed d.device_id target.device_id w (merge_devices d target w) refl refl k)
      (λ _. k)

device_rename_view-IsKeyed :
    (d : Device) (new_id : String) (confirmed : Bool) (w : World)
    → IsKeyed w
    → IsKeyed (device_rename_view d new_id confirmed w).1
unfolding device_rename_view
device_rename_view-IsKeyed d new_id confirmed w k =
    if_cases (λ (o : Renaming × World). IsKeyed o.1) (is_empty new_id) (λ _. k)
      (λ _.
        if_cases (λ (o : Renaming × World). IsKeyed o.1) (not (safe_identifier_re new_id)) (λ _. k)
          (λ _.
            if_cases (λ (o : Renaming × World). IsKeyed o.1) (new_id == d.device_id) (λ _. k)
              (λ _. rename_to-IsKeyed d new_id confirmed w (find_device new_id w.devices) k)))

approve-IsKeyed : (form : Dict String) (r : Run) → IsKeyed r.world → IsKeyed (approve form r).1
unfolding approve save
approve-IsKeyed form r k =
    if_cases (λ (o : Answer × World). IsKeyed o.1) (form_text "action" "" form == "approve")
      (λ _. record { ascending = k.ascending })
      (λ _.
        if_cases (λ (o : Answer × World). IsKeyed o.1) (form_text "action" "" form == "revoke")
          (λ _. record { ascending = k.ascending }) (λ _. k))

perform-IsKeyed :
    (env : Console) (shelf : Shelf) (now : ℕ) (by : Option ℕ) (act : Action) (r : Run)
    → Found r.device.device_id r
    → IsKeyed r.world
    → IsKeyed (perform env shelf now by act r).1
unfolding perform rename delete_command clear_commands delete delete_device
perform-IsKeyed env shelf now by (act_approve form) r h k = approve-IsKeyed form r k
perform-IsKeyed env shelf now by (act_rename form) r h k =
    device_rename_view-IsKeyed r.device (new_device_id env form) _ r.world k
perform-IsKeyed env shelf now by (act_delete_command pk) r h k = record {
  ascending = Ascending-select 0 r.world.next_pk _ r.world.commands k.ascending;
}
perform-IsKeyed env shelf now by act_clear_commands r h k = record {
  ascending = Ascending-select 0 r.world.next_pk _ r.world.commands k.ascending;
}
perform-IsKeyed env shelf now by act_delete r h k = record {
  ascending = Ascending-select 0 r.world.next_pk _ r.world.commands k.ascending;
}
perform-IsKeyed env shelf now by (act_calibrate form) r h k =
    Effects-IsKeyed (perform-Stays env shelf now by _ (act_calibrate form) r tt h) k
perform-IsKeyed env shelf now by (act_set_calibration form) r h k =
    Effects-IsKeyed (perform-Stays env shelf now by _ (act_set_calibration form) r tt h) k
perform-IsKeyed env shelf now by (act_confirm_uplink form) r h k =
    Effects-IsKeyed (perform-Stays env shelf now by _ (act_confirm_uplink form) r tt h) k
perform-IsKeyed env shelf now by act_request_calibration r h k =
    Effects-IsKeyed (perform-Stays env shelf now by _ act_request_calibration r tt h) k
perform-IsKeyed env shelf now by act_request_status r h k =
    Effects-IsKeyed (perform-Stays env shelf now by _ act_request_status r tt h) k
perform-IsKeyed env shelf now by act_request_diag r h k =
    Effects-IsKeyed (perform-Stays env shelf now by _ act_request_diag r tt h) k
perform-IsKeyed env shelf now by act_request_capabilities r h k =
    Effects-IsKeyed (perform-Stays env shelf now by _ act_request_capabilities r tt h) k
perform-IsKeyed env shelf now by (act_command form) r h k =
    Effects-IsKeyed (perform-Stays env shelf now by _ (act_command form) r tt h) k
perform-IsKeyed env shelf now by (act_push form) r h k =
    Effects-IsKeyed (perform-Stays env shelf now by _ (act_push form) r tt h) k
perform-IsKeyed env shelf now by (act_edit form visible) r h k =
    Effects-IsKeyed (perform-Stays env shelf now by _ (act_edit form visible) r tt h) k

found-IsKeyed :
    (env : Console) (shelf : Shelf) (now : ℕ) (by : Option ℕ) (method id : String) (act : Action)
    (w : World) (o : Option Device)
    → find_device id w.devices ≡ o
    → IsKeyed w
    → IsKeyed (administer_found env shelf now by method act w o).1
unfolding administer_found
found-IsKeyed env shelf now by method id act w none h k = k
found-IsKeyed env shelf now by method id act w (some d) h k =
    let own = find_device-device_id id w.devices d h in
    if_cases (λ (o : Answer × World). IsKeyed o.1) (not (method == "POST")) (λ _. k)
      (λ _.
        perform-IsKeyed env shelf now by act (record { device = d; world = w })
          (subst (λ k. find_device k w.devices ≡ some d) (sym own) h) k)

-- Every view of a device leaves the command log keyed by growing primary keys below the next one.
pub administer-IsKeyed :
    (env : Console) (shelf : Shelf) (now : ℕ) (by : Option ℕ) (method id : String) (act : Action)
    (w : World)
    → IsKeyed w
    → IsKeyed (administer env shelf now by method id act w).1
unfolding administer
administer-IsKeyed env shelf now by method id act w k =
    found-IsKeyed env shelf now by method id act w (find_device id w.devices) refl k
