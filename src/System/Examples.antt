-- ===== src/System/Examples.antt =====
-- The theorem about the whole server at sample data.
use sensor_server.Prelude.{
  ◌≡◌, refl, Bool, false, some, List, [], ◌∷◌, select, arith, pos, ◌==◌, ◌≢◌, inl, inr, eq_iff,
}
use sensor_server.Value.{finite, malformed, get}
use sensor_server.World.{World, SensorReading, find_device}
use sensor_server.Mqtt.Effects.Devices.{approval}
use sensor_server.Mqtt.Effects.Keys.{IsKeyed}
use sensor_server.Mqtt.Examples.{empty_world, sample_python, sample_message}
use sensor_server.Mqtt.Examples.Parts.{sample_device}
use sensor_server.Devices.Console.{Console, form_text}
use sensor_server.Devices.Admin.{Shelf, act_command, act_rename, new_device_id}
use sensor_server.System.{Click, Step, message, click, work, work-unapproved}

abbrev waiting_world : World
waiting_world = record empty_world { devices = record sample_device { is_approved = false } ∷ [] }

waiting_world-IsKeyed : IsKeyed waiting_world
waiting_world-IsKeyed = record { ascending = (omega arith, omega arith) }

abbrev desk : Console
desk = record {
  strip = λ text. text;
  parse_float = λ text. some (finite (pos 15) 1);
  parse_int = λ text. some (pos 60);
  loads = λ text. malformed;
  is_storable = λ v. Bool.true;
}

abbrev bare_shelf : Shelf
bare_shelf = record { base_url = ""; firmwares = []; pk = λ f. 0 }

abbrev reboot : Click
reboot = record {
  time = 2000;
  by = some 1;
  method = "POST";
  device_id = "d1";
  action = act_command (("command", "reboot") ∷ []);
}

abbrev renaming : Click
renaming = record {
  time = 2100;
  by = some 1;
  method = "POST";
  device_id = "d7";
  action = act_rename (("new_device_id", "d8") ∷ []);
}

abbrev four_steps : List Step
four_steps = message sample_message ∷ click reboot ∷ click renaming ∷ message sample_message ∷ []

renaming-spares : "d1" ≢ new_device_id desk (("new_device_id", "d8") ∷ [])
unfolding new_device_id form_text get
renaming-spares e = ground (arith, e, eq_iff "d1" "d8")

work-unapproved_example :
    (approval
        (find_device "d1" (work sample_python desk bare_shelf four_steps waiting_world).devices)
      ≡ false)
    × (select
          (λ s. s.device_id == "d1")
          (work sample_python desk bare_shelf four_steps waiting_world).readings
        ≡ select (λ (s : SensorReading). s.device_id == "d1") waiting_world.readings)
unfolding find_device
work-unapproved_example =
    work-unapproved sample_python desk bare_shelf four_steps "d1" waiting_world
      waiting_world-IsKeyed refl
      (tt, (inl tt, (inr (λ e. ground (arith, eq_iff "d1" "d7"), renaming-spares), (tt, tt))))
