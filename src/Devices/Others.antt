-- ===== src/Devices/Others.antt =====
-- Every view of Devices/Admin.antt stays with its device, those that approve and delete too; one that
-- renames or merges, with its device and the one of the new id.
use sensor_server.Prelude.{
  ℕ, String, ◌≡◌, ◌≢◌, refl, sym, ◌∙◌, subst, Bool, true, false, not, Option, none, some, List, [],
  ◌∷◌, arith, if_cases, select, ◌==◌, eq_iff,
}
use sensor_server.Text.{is_empty, safe_identifier_re}
use sensor_server.Value.{Dict}
use sensor_server.Store.{Device}
use sensor_server.World.{World, Run, find_device, save}
use sensor_server.World.Tables.{select-select_skipped, find_device-update_ne, find_device-device_id}
use sensor_server.Mqtt.Effects.Frame.{SameFor, SameFor-refl, Effects-SameFor}
use sensor_server.Mqtt.Confined.{Found}
use sensor_server.Devices.Rename.{delete_device, Renaming, rename_to, device_rename_view}
use sensor_server.Devices.Renamed.{rename_device-SameFor}
use sensor_server.Devices.Merged.{merge_devices-SameFor}
use sensor_server.Devices.Console.{Console, Answer, form_text}
use sensor_server.Devices.Admin.{
  delete_command, clear_commands, copy_is_approved, approve, delete, rename, new_device_id, Shelf,
  Action, act_calibrate, act_set_calibration, act_confirm_uplink, act_request_calibration,
  act_request_status, act_request_diag, act_request_capabilities, act_command, act_approve,
  act_push, act_rename, act_edit, act_delete_command, act_clear_commands, act_delete, perform,
  administer_found, administer,
}
use sensor_server.Devices.Actions.{perform-Stays}

find_device-select :
    (j id : String) (ds : List Device)
    → j ≢ id
    → find_device j (select (λ d. not (d.device_id == id)) ds) ≡ find_device j ds
unfolding find_device select
find_device-select j id [] ne = refl
find_device-select j id (d ∷ ds) ne =
    ground (arith, eq_iff d.device_id j, eq_iff d.device_id id, find_device-select j id ds ne)

-- A test that a row of another device fails.
other_row : (k id j : String) → j ≢ id → (k == j) ≡ true → not (k == id) ≡ true
other_row k id j ne h = ground (arith, eq_iff k j, eq_iff k id, h)

approve-SameFor :
    (form : Dict String) (r : Run) (j : String)
    → j ≢ r.device.device_id
    → SameFor j r.world (approve form r).1
unfolding approve save
approve-SameFor form r j ne =
    if_cases (λ (o : Answer × World). SameFor j r.world o.1)
      (form_text "action" "" form == "approve") (λ _. set true)
      (λ _.
        if_cases (λ (o : Answer × World). SameFor j r.world o.1)
          (form_text "action" "" form == "revoke") (λ _. set false) (λ _. SameFor-refl j r.world))
  where
    set :
        (b : Bool)
        → SameFor j r.world (save copy_is_approved (record r.device { is_approved = b }) r.world)
    set b = record {
      device = find_device-update_ne r.device.device_id _ (λ d. refl) j r.world.devices ne;
      commands = refl;
      status_logs = refl;
      diag_logs = refl;
      readings = refl;
    }

delete_command-SameFor :
    (pk : ℕ) (r : Run) (j : String)
    → j ≢ r.device.device_id
    → SameFor j r.world (delete_command pk r).1
unfolding delete_command
delete_command-SameFor pk r j ne = record {
  commands =
      select-select_skipped (λ c. c.device == j) _
        (λ c h. ground (arith, other_row c.device r.device.device_id j ne h)) r.world.commands;
  device = refl;
  status_logs = refl;
  diag_logs = refl;
  readings = refl;
}

clear_commands-SameFor :
    (r : Run) (j : String) → j ≢ r.device.device_id → SameFor j r.world (clear_commands r).1
unfolding clear_commands
clear_commands-SameFor r j ne = record {
  commands =
      select-select_skipped (λ c. c.device == j) _ (λ c. other_row c.device r.device.device_id j ne)
        r.world.commands;
  device = refl;
  status_logs = refl;
  diag_logs = refl;
  readings = refl;
}

delete-SameFor : (r : Run) (j : String) → j ≢ r.device.device_id → SameFor j r.world (delete r).1
unfolding delete delete_device
delete-SameFor r j ne = record {
  device = find_device-select j r.device.device_id r.world.devices ne;
  commands =
      select-select_skipped (λ c. c.device == j) _ (λ c. other_row c.device r.device.device_id j ne)
        r.world.commands;
  status_logs =
      select-select_skipped (λ c. c.device == j) _ (λ c. other_row c.device r.device.device_id j ne)
        r.world.status_logs;
  diag_logs =
      select-select_skipped (λ c. c.device == j) _ (λ c. other_row c.device r.device.device_id j ne)
        r.world.diag_logs;
  readings =
      select-select_skipped (λ c. c.device_id == j) _
        (λ c. other_row c.device_id r.device.device_id j ne) r.world.readings;
}

rename_to-SameFor :
    (d : Device) (new_id : String) (confirmed : Bool) (w : World) (j : String) (o : Option Device)
    → find_device new_id w.devices ≡ o
    → new_id ≢ d.device_id
    → j ≢ d.device_id
    → j ≢ new_id
    → SameFor j w (rename_to d new_id confirmed w o).1
rename_to-SameFor d new_id confirmed w j none h apart ne nf =
    rename_device-SameFor d new_id j w apart ne nf
rename_to-SameFor d new_id confirmed w j (some target) h apart ne nf =
    let own = find_device-device_id new_id w.devices target h in
    if_cases (λ (o : Renaming × World). SameFor j w o.1) confirmed
      (λ _. merge_devices-SameFor d target j w (λ e. apart (sym own ∙ e)) ne (λ e. nf (e ∙ own)))
      (λ _. SameFor-refl j w)

device_rename_view-SameFor :
    (d : Device) (new_id : String) (confirmed : Bool) (w : World) (j : String)
    → j ≢ d.device_id
    → j ≢ new_id
    → SameFor j w (device_rename_view d new_id confirmed w).1
unfolding device_rename_view
device_rename_view-SameFor d new_id confirmed w j ne nf =
    let same = SameFor-refl j w in
    if_cases (λ (o : Renaming × World). SameFor j w o.1) (is_empty new_id) (λ _. same)
      (λ _.
        if_cases (λ (o : Renaming × World). SameFor j w o.1) (not (safe_identifier_re new_id))
          (λ _. same)
          (λ _.
            if_cases (λ (o : Renaming × World). SameFor j w o.1) (new_id == d.device_id) (λ _. same)
              (λ apart.
                rename_to-SameFor d new_id confirmed w j (find_device new_id w.devices) refl
                  (λ e. ground (arith, apart, eq_iff new_id d.device_id)) ne nf)))

-- The action does not rename the device to `j`, or merge it into `j`.
abbrev pub Spares : Console → Action → String → Type 0
Spares env (act_rename form) j = j ≢ new_device_id env form
Spares env _ j = Unit

perform-SameFor :
    (env : Console) (shelf : Shelf) (now : ℕ) (by : Option ℕ) (act : Action) (r : Run) (j : String)
    → Found r.device.device_id r
    → j ≢ r.device.device_id
    → Spares env act j
    → SameFor j r.world (perform env shelf now by act r).1
unfolding perform rename
perform-SameFor env shelf now by (act_rename form) r j h ne spared =
    device_rename_view-SameFor r.device (new_device_id env form) _ r.world j ne spared
perform-SameFor env shelf now by (act_approve form) r j h ne spared = approve-SameFor form r j ne
perform-SameFor env shelf now by (act_delete_command pk) r j h ne spared =
    delete_command-SameFor pk r j ne
perform-SameFor env shelf now by act_clear_commands r j h ne spared = clear_commands-SameFor r j ne
perform-SameFor env shelf now by act_delete r j h ne spared = delete-SameFor r j ne
perform-SameFor env shelf now by (act_calibrate form) r j h ne spared =
    Effects-SameFor j ne (perform-Stays env shelf now by _ (act_calibrate form) r tt h)
perform-SameFor env shelf now by (act_set_calibration form) r j h ne spared =
    Effects-SameFor j ne (perform-Stays env shelf now by _ (act_set_calibration form) r tt h)
perform-SameFor env shelf now by (act_confirm_uplink form) r j h ne spared =
    Effects-SameFor j ne (perform-Stays env shelf now by _ (act_confirm_uplink form) r tt h)
perform-SameFor env shelf now by act_request_calibration r j h ne spared =
    Effects-SameFor j ne (perform-Stays env shelf now by _ act_request_calibration r tt h)
perform-SameFor env shelf now by act_request_status r j h ne spared =
    Effects-SameFor j ne (perform-Stays env shelf now by _ act_request_status r tt h)
perform-SameFor env shelf now by act_request_diag r j h ne spared =
    Effects-SameFor j ne (perform-Stays env shelf now by _ act_request_diag r tt h)
perform-SameFor env shelf now by act_request_capabilities r j h ne spared =
    Effects-SameFor j ne (perform-Stays env shelf now by _ act_request_capabilities r tt h)
perform-SameFor env shelf now by (act_command form) r j h ne spared =
    Effects-SameFor j ne (perform-Stays env shelf now by _ (act_command form) r tt h)
perform-SameFor env shelf now by (act_push form) r j h ne spared =
    Effects-SameFor j ne (perform-Stays env shelf now by _ (act_push form) r tt h)
perform-SameFor env shelf now by (act_edit form visible) r j h ne spared =
    Effects-SameFor j ne (perform-Stays env shelf now by _ (act_edit form visible) r tt h)

administer_found-SameFor :
    (env : Console) (shelf : Shelf) (now : ℕ) (by : Option ℕ) (method id : String) (act : Action)
    (w : World) (j : String) (o : Option Device)
    → find_device id w.devices ≡ o
    → j ≢ id
    → Spares env act j
    → SameFor j w (administer_found env shelf now by method act w o).1
unfolding administer_found
administer_found-SameFor env shelf now by method id act w j none h ne spared = SameFor-refl j w
administer_found-SameFor env shelf now by method id act w j (some d) h ne spared =
    let own = find_device-device_id id w.devices d h in
    if_cases (λ (o : Answer × World). SameFor j w o.1) (not (method == "POST"))
      (λ _. SameFor-refl j w)
      (λ _.
        perform-SameFor env shelf now by act (record { device = d; world = w }) j
          (subst (λ k. find_device k w.devices ≡ some d) (sym own) h) (λ e. ne (e ∙ own)) spared)

-- Whatever view of one device is called, the ones that approve it, rename it, merge it into another, or
-- delete it, its commands or one command among them: the rows of every other device are afterwards
-- what they were, apart from the device whose id a rename or a merge asks for.
pub administer-SameFor :
    (env : Console) (shelf : Shelf) (now : ℕ) (by : Option ℕ) (method id : String) (act : Action)
    (w : World) (j : String)
    → j ≢ id
    → Spares env act j
    → SameFor j w (administer env shelf now by method id act w).1
unfolding administer
administer-SameFor env shelf now by method id act w j ne spared =
    administer_found-SameFor env shelf now by method id act w j (find_device id w.devices) refl ne
      spared
