-- ===== src/Devices/Renamed.antt =====
-- What `_rename_device` of web/devices/views.py leaves under the old id, the new id and every other id.
use sensor_server.Prelude.{
  String, ◌≡◌, ◌≢◌, refl, ◌∙◌, ap, not, none, some, List, [], ◌∷◌, ◌++◌, arith, ◌==◌, eq_iff,
  select, map, if◌then◌else◌,
}
use sensor_server.Store.{Device}
use sensor_server.World.{
  World, CommandLog, StatusLog, DiagLog, SensorReading, find_device, update_where,
}
use sensor_server.World.Tables.{update_where-map, find_device-append_self, find_device-append_ne}
use sensor_server.Mqtt.Effects.Frame.{SameFor}
use sensor_server.Devices.Rename.{
  move_readings, move_status_logs, move_commands, delete_device, renamed_device, rename_device,
}

-- Rows that name a device by `key`, moved from `old` to another id.
module _ {A : Type 0} (key : A → String) (old new : String) (move : A → A)
    (moves : (x : A) → key (move x) ≡ new) (apart : new ≢ old) where
  moved-none :
      (xs : List A) → select (λ x. key x == old) (update_where (λ x. key x == old) move xs) ≡ []
  unfolding select update_where
  moved-none [] = refl
  moved-none (x ∷ xs) =
      ground (arith, moves x, eq_iff (key x) old, eq_iff (key (move x)) old, moved-none xs)

  -- The deletion of what is left under the old id deletes nothing.
  moved-kept :
      (xs : List A)
      → select (λ x. not (key x == old)) (update_where (λ x. key x == old) move xs)
        ≡ update_where (λ x. key x == old) move xs
  unfolding select update_where
  moved-kept [] = refl
  moved-kept (x ∷ xs) =
      ground (arith, moves x, eq_iff (key x) old, eq_iff (key (move x)) old, moved-kept xs)

  pub moved-other :
      (j : String) (xs : List A)
      → j ≢ old
      → j ≢ new
      → select (λ x. key x == j) (update_where (λ x. key x == old) move xs)
        ≡ select (λ x. key x == j) xs
  unfolding select update_where
  moved-other j [] ne nf = refl
  moved-other j (x ∷ xs) ne nf = ground (
    arith,
    moves x,
    eq_iff (key x) old,
    eq_iff (key x) j,
    eq_iff (key (move x)) j,
    moved-other j xs ne nf,
  )

pub deleted-other :
    {A : Type 0} (key : A → String) (old j : String) (xs : List A)
    → j ≢ old
    → select (λ x. key x == j) (select (λ x. not (key x == old)) xs) ≡ select (λ x. key x == j) xs
unfolding select
deleted-other key old j [] ne = refl
deleted-other key old j (x ∷ xs) ne =
    ground (arith, eq_iff (key x) old, eq_iff (key x) j, deleted-other key old j xs ne)

deleted-none :
    {A : Type 0} (key : A → String) (old : String) (xs : List A)
    → select (λ x. key x == old) (select (λ x. not (key x == old)) xs) ≡ []
unfolding select
deleted-none key old [] = refl
deleted-none key old (x ∷ xs) = ground (arith, deleted-none key old xs)

find_device-deleted :
    (old : String) (ds : List Device)
    → find_device old (select (λ d. not (d.device_id == old)) ds) ≡ none
unfolding find_device select
find_device-deleted old [] = refl
find_device-deleted old (d ∷ ds) = ground (arith, find_device-deleted old ds)

pub find_device-deleted_other :
    (old j : String) (ds : List Device)
    → j ≢ old
    → find_device j (select (λ d. not (d.device_id == old)) ds) ≡ find_device j ds
unfolding find_device select
find_device-deleted_other old j [] ne = refl
find_device-deleted_other old j (d ∷ ds) ne =
    ground
      (arith, eq_iff d.device_id old, eq_iff d.device_id j, find_device-deleted_other old j ds ne)

-- The old id is free, and everything but the diagnostic log has moved row by row.
pub record IsRenamed (d : Device) (new_id : String) (w v : World) : Type 0 where
  pub gone : find_device d.device_id v.devices ≡ none
  pub row : find_device new_id v.devices ≡ some (renamed_device new_id d)
  pub no_readings : select (λ s. s.device_id == d.device_id) v.readings ≡ []
  pub moved_readings :
      v.readings
      ≡ map
          (λ (s : SensorReading).
            if s.device_id == d.device_id then record s { device_id = new_id } else s)
          w.readings
  pub no_commands : select (λ c. c.device == d.device_id) v.commands ≡ []
  pub moved_commands :
      v.commands
      ≡ map
          (λ (c : CommandLog). if c.device == d.device_id then record c { device = new_id } else c)
          w.commands
  pub no_status_logs : select (λ s. s.device == d.device_id) v.status_logs ≡ []
  pub moved_status_logs :
      v.status_logs
      ≡ map
          (λ (s : StatusLog). if s.device == d.device_id then record s { device = new_id } else s)
          w.status_logs
  pub no_diag_logs : select (λ s. s.device == d.device_id) v.diag_logs ≡ []
  pub new_diag_logs :
      select (λ s. s.device == new_id) v.diag_logs
      ≡ select (λ (s : DiagLog). s.device == new_id) w.diag_logs

-- A rename to another id, which no device has, frees the old id, makes the row under the new one, and moves
-- readings, commands and alert log: each row of the old id is in its place under the new id, with
-- nothing else of it changed, and each other row is as it was. Diagnostic snapshots do not move: those
-- of the old id are gone, and those of the new id stay.
pub rename_device-IsRenamed :
    (d : Device) (new_id : String) (w : World)
    → new_id ≢ d.device_id
    → find_device new_id w.devices ≡ none
    → IsRenamed d new_id w (rename_device d new_id w)
unfolding rename_device delete_device move_readings move_commands move_status_logs
rename_device-IsRenamed d new_id w ne free =
    let old = d.device_id in
    let commands =
      moved-kept (λ (c : CommandLog). c.device) old new_id (λ c. record c { device = new_id })
        (λ c. refl) ne w.commands in
    let status_logs =
      moved-kept (λ (s : StatusLog). s.device) old new_id (λ s. record s { device = new_id })
        (λ s. refl) ne w.status_logs in
    record {
      gone = find_device-deleted old (w.devices ++ renamed_device new_id d ∷ []);
      row =
          find_device-deleted_other old new_id (w.devices ++ renamed_device new_id d ∷ []) ne
          ∙ find_device-append_self new_id w.devices (renamed_device new_id d) free
              (unfold renamed_device in refl);
      no_readings =
          moved-none (λ (s : SensorReading). s.device_id) old new_id
            (λ s. record s { device_id = new_id }) (λ s. refl) ne w.readings;
      moved_readings =
          update_where-map (λ (s : SensorReading). s.device_id == old)
            (λ s. record s { device_id = new_id }) w.readings;
      no_commands =
          ap (λ cs. select (λ (c : CommandLog). c.device == old) cs) commands
          ∙ moved-none (λ (c : CommandLog). c.device) old new_id (λ c. record c { device = new_id })
              (λ c. refl) ne w.commands;
      moved_commands =
          commands
          ∙ update_where-map (λ (c : CommandLog). c.device == old)
              (λ c. record c { device = new_id }) w.commands;
      no_status_logs =
          ap (λ ss. select (λ (s : StatusLog). s.device == old) ss) status_logs
          ∙ moved-none (λ (s : StatusLog). s.device) old new_id (λ s. record s { device = new_id })
              (λ s. refl) ne w.status_logs;
      moved_status_logs =
          status_logs
          ∙ update_where-map (λ (s : StatusLog). s.device == old)
              (λ s. record s { device = new_id }) w.status_logs;
      no_diag_logs = deleted-none (λ (s : DiagLog). s.device) old w.diag_logs;
      new_diag_logs = deleted-other (λ (s : DiagLog). s.device) old new_id w.diag_logs ne;
    }

-- A rename to another id changes nothing of a device with another id than the old and the new one.
pub rename_device-SameFor :
    (d : Device) (new_id j : String) (w : World)
    → new_id ≢ d.device_id
    → j ≢ d.device_id
    → j ≢ new_id
    → SameFor j w (rename_device d new_id w)
unfolding rename_device delete_device move_readings move_commands move_status_logs
rename_device-SameFor d new_id j w ne nold nnew =
    let old = d.device_id in
    record {
      device =
          find_device-deleted_other old j (w.devices ++ renamed_device new_id d ∷ []) nold
          ∙ find_device-append_ne j w.devices (renamed_device new_id d)
              (unfold renamed_device in nnew);
      commands =
          deleted-other (λ (c : CommandLog). c.device) old j _ nold
          ∙ moved-other (λ (c : CommandLog). c.device) old new_id
              (λ c. record c { device = new_id }) (λ c. refl) ne j w.commands nold nnew;
      status_logs =
          deleted-other (λ (s : StatusLog). s.device) old j _ nold
          ∙ moved-other (λ (s : StatusLog). s.device) old new_id (λ s. record s { device = new_id })
              (λ s. refl) ne j w.status_logs nold nnew;
      diag_logs = deleted-other (λ (s : DiagLog). s.device) old j w.diag_logs nold;
      readings =
          moved-other (λ (s : SensorReading). s.device_id) old new_id
            (λ s. record s { device_id = new_id }) (λ s. refl) ne j w.readings nold nnew;
    }
