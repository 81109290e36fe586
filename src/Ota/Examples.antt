-- ===== src/Ota/Examples.antt =====
-- The theorems about updates at sample data.
use sensor_server.Prelude.{String, ◌≡◌, refl, ◌⊎◌, ◌++◌, true, false, pos, none, some, [], ◌∷◌}
use sensor_server.Text.{is_empty, concat}
use sensor_server.Store.{Device}
use sensor_server.Value.{Json}
use sensor_server.World.{World, mark, success}
use sensor_server.Mqtt.Requests.{resolve_ota_updates, command_topic}
use sensor_server.Mqtt.Examples.{empty_world}
use sensor_server.Mqtt.Examples.Parts.{sample_device}
use sensor_server.Ota.Catalog.{Firmware, Catalog}
use sensor_server.Ota.Push.{
  sent, ota_command, send_ota_update, IsPushed, send_ota_update-IsPushed, pushed_command,
  resolve_ota_updates-pushed,
}
use sensor_server.Ota.Publish.{
  ok, created, Platform, Upload, publish_firmware, extract_bearer_token, publish_token_required,
}
use sensor_server.Ota.Push.{firmware_download_url}
use sensor_server.Ota.Url.{firmware_download_url-injective}
use sensor_server.Ota.Uniqueness.{
  IsPublished, publish_firmware-IsPublished, publish_token_required-token,
}

abbrev sample_digest : String
sample_digest = "0123456789abcdef0123456789abcdef"

abbrev sample_firmware : Firmware
sample_firmware = record {
  hw_code = "ES000001";
  hw_rev = 2;
  version = "1.3";
  file = 1 ∷ [];
  md5 = sample_digest;
  size = 1;
  uploaded_at = 0;
  notes = "";
}

abbrev updatable_device : Device
updatable_device = record sample_device {
  ota_capable = true;
  hardware_code = some "ES000001";
  hw_rev = some 2;
}

abbrev sample_platform : Platform
sample_platform = record {
  md5_of = λ content. sample_digest;
  parse_int = λ text. some (pos 2);
  lower = λ text. text;
  strip = λ text. text;
}

abbrev sample_upload : Upload
sample_upload = record {
  hw_code = "ES000001";
  version = "1.3";
  md5 = sample_digest;
  notes = "";
  hw_rev = "2";
  file = some (1 ∷ []);
  overwrite = false;
}

abbrev sample_catalog : Catalog
sample_catalog = record {
  codes = [];
  revisions =
      record {
        hw_code = "ES000001";
        hw_rev = 2;
        description = "";
        bat_divider_nominal = Json.null;
        notes = "";
      }
      ∷ [];
  firmwares = [];
}

send_ota_update-IsPushed_example :
    (((send_ota_update 5 "http://x" sample_firmware none updatable_device empty_world).0 ≡ sent)
      × IsPushed 5 "http://x" sample_firmware none updatable_device empty_world
          (send_ota_update 5 "http://x" sample_firmware none updatable_device empty_world).1)
    ⊎ ((send_ota_update 5 "http://x" sample_firmware none updatable_device empty_world).1.outbox
        ≡ empty_world.outbox)
      × ((send_ota_update 5 "http://x" sample_firmware none updatable_device empty_world).1.commands
          ≡ empty_world.commands)
send_ota_update-IsPushed_example =
    send_ota_update-IsPushed 5 "http://x" sample_firmware none updatable_device empty_world

abbrev pushed_world : World
pushed_world = record empty_world {
  commands =
      empty_world.commands
      ++ pushed_command 5 "http://x" sample_firmware none updatable_device 5 ∷ [];
  outbox =
      record {
        topic = command_topic updatable_device;
        payload = ota_command "http://x" sample_firmware;
        retain = false;
        qos = 1;
      }
      ∷ [];
}

pushed_world-IsPushed :
    IsPushed 5 "http://x" sample_firmware none updatable_device empty_world pushed_world
pushed_world-IsPushed = record {
  capable = refl;
  same_code = refl;
  same_revision = refl;
  published = refl;
  logged = refl;
}

resolve_ota_updates-pushed_example :
    (resolve_ota_updates 9 (record updatable_device { fw_version = "1.3" }) pushed_world).commands
    ≡ (resolve_ota_updates 9 (record updatable_device { fw_version = "1.3" }) empty_world).commands
      ++ mark success
          (concat "Running " "1.3")
          9
          (pushed_command 5 "http://x" sample_firmware none updatable_device 5)
        ∷ []
resolve_ota_updates-pushed_example =
    resolve_ota_updates-pushed 5 9 "http://x" sample_firmware none updatable_device empty_world
      pushed_world refl pushed_world-IsPushed

publish_firmware-IsPublished_example :
    (((publish_firmware sample_platform 7 sample_upload sample_catalog).0 ≡ ok)
        ⊎ ((publish_firmware sample_platform 7 sample_upload sample_catalog).0 ≡ created))
      × IsPublished sample_platform sample_upload sample_catalog
          (publish_firmware sample_platform 7 sample_upload sample_catalog).1
    ⊎ ((publish_firmware sample_platform 7 sample_upload sample_catalog).1 ≡ sample_catalog)
publish_firmware-IsPublished_example =
    publish_firmware-IsPublished sample_platform 7 sample_upload sample_catalog

publish_token_required-token_example :
    ((publish_token_required sample_platform "secret" "Bearer secret"
        (publish_firmware sample_platform 7 sample_upload)
        sample_catalog).1
      ≡ sample_catalog)
    ⊎ (extract_bearer_token sample_platform "Bearer secret" ≡ "secret")
      × ((is_empty "secret" ≡ false)
          × (publish_token_required sample_platform "secret" "Bearer secret"
                (publish_firmware sample_platform 7 sample_upload)
                sample_catalog
              ≡ publish_firmware sample_platform 7 sample_upload sample_catalog))
publish_token_required-token_example =
    publish_token_required-token sample_platform sample_catalog "secret" "Bearer secret"
      (publish_firmware sample_platform 7 sample_upload)

abbrev renoted_firmware : Firmware
renoted_firmware = record sample_firmware { notes = "again" }

firmware_download_url-injective_example :
    (sample_firmware.hw_code ≡ renoted_firmware.hw_code)
    × (sample_firmware.hw_rev ≡ renoted_firmware.hw_rev)
    × (sample_firmware.version ≡ renoted_firmware.version)
firmware_download_url-injective_example =
    firmware_download_url-injective "http://x" sample_firmware renoted_firmware refl
      (unfold firmware_download_url in refl)
