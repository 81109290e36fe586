-- ===== src/Devices/Examples.antt =====
-- The theorems about the administration of devices at sample data.
use sensor_server.Prelude.{refl, arith, eq_iff, [], ◌∷◌}
use sensor_server.Prelude.{List, pos, select}
use sensor_server.Value.{finite}
use sensor_server.Store.{Device}
use sensor_server.World.{World, SensorReading, find_device}
use sensor_server.Mqtt.Effects.Frame.{SameFor}
use sensor_server.Mqtt.Examples.{empty_world}
use sensor_server.Mqtt.Examples.Parts.{sample_device}
use sensor_server.Devices.Rename.{rename_device, merge_devices}
use sensor_server.Prelude.{String, some, true}
use sensor_server.Value.{Dict, malformed}
use sensor_server.World.Order.{order_by, insert_by}
use sensor_server.Text.{by_codes}
use sensor_server.Devices.Console.{Console}
use sensor_server.Devices.Admin.{Shelf, act_command, act_delete, administer}
use sensor_server.Devices.Actions.{IsConfined, administer-IsConfined}
use sensor_server.Devices.Others.{administer-SameFor}
use sensor_server.Devices.Neighbours.{approved_ids, prev_next_device}
use sensor_server.Devices.Cycle.{Unique, LeadsBack, prev_next_device-LeadsBack}
use sensor_server.Devices.Merged.{merge_devices-SameFor}
use sensor_server.Devices.Renamed.{IsRenamed, rename_device-IsRenamed, rename_device-SameFor}

abbrev one_device : World
one_device = record empty_world { devices = sample_device ∷ [] }

rename_device-IsRenamed_example :
    IsRenamed sample_device "d9" one_device (rename_device sample_device "d9" one_device)
rename_device-IsRenamed_example =
    rename_device-IsRenamed sample_device "d9" one_device (λ e. ground (arith, eq_iff "d9" "d1"))
      (unfold find_device in refl)

rename_device-SameFor_example :
    SameFor "d5" one_device (rename_device sample_device "d9" one_device)
rename_device-SameFor_example =
    rename_device-SameFor sample_device "d9" "d5" one_device (λ e. ground (arith, eq_iff "d9" "d1"))
      (λ e. ground (arith, eq_iff "d5" "d1")) (λ e. ground (arith, eq_iff "d5" "d9"))

abbrev two_readings : List SensorReading
two_readings =
    record { time = 5; device_id = "d1"; metric = "temperature"; value = finite (pos 21) 0 }
    ∷ record { time = 3; device_id = "d2"; metric = "temperature"; value = finite (pos 19) 0 }
    ∷ []

abbrev other_device : Device
other_device = record sample_device { device_id = "d2" }

merge_devices-SameFor_example :
    SameFor "d5" one_device (merge_devices sample_device other_device one_device)
merge_devices-SameFor_example =
    merge_devices-SameFor sample_device other_device "d5" one_device
      (λ e. ground (arith, eq_iff "d2" "d1")) (λ e. ground (arith, eq_iff "d5" "d1"))
      (λ e. ground (arith, eq_iff "d5" "d2"))

abbrev sample_console : Console
sample_console = record {
  strip = λ text. text;
  parse_float = λ text. some (finite (pos 15) 1);
  parse_int = λ text. some (pos 60);
  loads = λ text. malformed;
  is_storable = λ v. true;
}

abbrev no_shelf : Shelf
no_shelf = record { base_url = ""; firmwares = []; pk = λ f. 0 }

abbrev reboot_form : Dict String
reboot_form = ("command", "reboot") ∷ []

administer-IsConfined_example :
    IsConfined "d1" one_device
      (administer sample_console no_shelf 900
        (some 1)
        "POST"
        "d1"
        (act_command reboot_form)
        one_device).1
administer-IsConfined_example =
    administer-IsConfined sample_console no_shelf 900 (some 1) "POST" "d1" (act_command reboot_form)
      one_device tt

administer-SameFor_example :
    SameFor "d5" one_device
      (administer sample_console no_shelf 900 (some 1) "POST" "d1" act_delete one_device).1
administer-SameFor_example =
    administer-SameFor sample_console no_shelf 900 (some 1) "POST" "d1" act_delete one_device "d5"
      (λ e. ground (arith, eq_iff "d5" "d1")) tt

abbrev two_devices : List Device
two_devices = sample_device ∷ other_device ∷ []

two_devices-Unique : Unique (approved_ids by_codes two_devices)
unfolding approved_ids select order_by insert_by by_codes
two_devices-Unique = ((refl, tt), (tt, tt))

prev_next_device-LeadsBack_example :
    LeadsBack (approved_ids by_codes two_devices) "d1" (prev_next_device by_codes two_devices "d1")
prev_next_device-LeadsBack_example =
    prev_next_device-LeadsBack by_codes two_devices "d1" two_devices-Unique
