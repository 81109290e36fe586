-- ===== src/Devices/Admin.antt =====
-- The other views of web/devices/views.py that change one device, and all of them as actions.
use sensor_server.Prelude.{
  ℕ, min, max, ℤ, pos, negsuc, String, Bool, true, false, not, ◌&&◌, Option, none, some, List, find,
  leb, eqb, eqb_ℤ, ◌==◌, select, if◌then◌else◌,
}
use sensor_server.Text.{len}
use sensor_server.Value.{Dict, get}
use sensor_server.Store.{Device}
use sensor_server.World.{World, Run, save, find_device}
use sensor_server.World.Order.{order_by}
use sensor_server.Ota.Catalog.{Firmware}
use sensor_server.Ota.Push.{
  Push, sent, not_capable, incompatible, no_base_url, unpublished, send_ota_update, is_compatible,
}
use sensor_server.Devices.Rename.{delete_device, device_rename_view}
use sensor_server.Devices.Console.{
  Console, Answer, done, bad_request, not_found, server_error, form_text, post_calibration,
  post_set_calibration, post_request_calibration, post_request_status, post_request_diag,
  post_request_capabilities, post_set_confirm_uplink, post_command,
}

-- device_delete_command_view, behind the lookup
unfoldable pub delete_command : ℕ → Run → Answer × World
unfolding select
delete_command pk r = (
  done,
  record r.world {
    commands = select (λ c. not (eqb c.pk pk && (c.device == r.device.device_id))) r.world.commands;
  },
)

-- device_clear_commands_view, behind the lookup
unfoldable pub clear_commands : Run → Answer × World
unfolding select
clear_commands r = (
  done,
  record r.world { commands = select (λ c. not (c.device == r.device.device_id)) r.world.commands },
)

abbrev pub copy_is_approved : Device → Device → Device
copy_is_approved d row = record row { is_approved = d.is_approved }

-- device_approve_view, behind the lookup
unfoldable pub approve : Dict String → Run → Answer × World
unfolding form_text save
approve form r =
    let act = form_text "action" "" form in
    if act == "approve"
    then (done, save copy_is_approved (record r.device { is_approved = true }) r.world)
    else if act == "revoke"
    then (done, save copy_is_approved (record r.device { is_approved = false }) r.world)
    else (done, r.world)

-- int(request.POST.get(key, default)); `none` is a ValueError
unfoldable pub form_int : Console → String → ℕ → Dict String → Option ℤ
unfolding get
form_int env key default form = elim (get key form) [
  | none ↦ some (pos default)
  | some text ↦ env.parse_int text
]

-- max(low, min(n, high)), or the old value
abbrev pub clamped : ℕ → ℕ → ℕ → Option ℤ → ℕ
clamped low high old none = old
clamped low high old (some (pos n)) = max low (min n high)
clamped low high old (some (negsuc n)) = low

abbrev pub copy_edited : Device → Device → Device
copy_edited d row = record row {
  display_name = d.display_name;
  location = d.location;
  location_type = d.location_type;
  guest_visible_metrics = d.guest_visible_metrics;
  publish_interval = d.publish_interval;
  battery_cell_count = d.battery_cell_count;
}

unfoldable pub edited : Console → Dict String → List String → Device → Device
unfolding form_text form_int
edited env form visible d = record d {
  display_name = form_text "display_name" "" form;
  location = form_text "location" "" form;
  location_type = form_text "location_type" "" form;
  guest_visible_metrics = visible;
  publish_interval = clamped 0 86400 d.publish_interval (form_int env "publish_interval" 0 form);
  battery_cell_count = clamped 1 10 d.battery_cell_count (form_int env "battery_cell_count" 1 form);
}

-- The texts are within the widths of their columns; PostgreSQL refuses others.
unfoldable pub fits : Device → Bool
fits d = leb (len d.display_name) 128 && leb (len d.location) 128 && leb (len d.location_type) 16

-- device_edit_view, for POST; `visible` is the list of the form
unfoldable pub edit : Console → Dict String → List String → Run → Answer × World
unfolding edited fits save
edit env form visible r =
    let d = edited env form visible r.device in
    if fits d then (done, save copy_edited d r.world) else (server_error, r.world)

-- device_delete_view, for POST
unfoldable pub delete : Run → Answer × World
unfolding delete_device select
delete r =
    let w = r.world in
    (
      done,
      delete_device r.device.device_id (record w {
        readings = select (λ s. not (s.device_id == r.device.device_id)) w.readings;
      }),
    )

-- The new id that a form asks for.
unfoldable pub new_device_id : Console → Dict String → String
unfolding form_text
new_device_id env form = env.strip (form_text "new_device_id" "" form)

-- device_rename_view, behind the lookup, for POST: every outcome is a page or a redirect
unfoldable pub rename : Console → Dict String → Run → Answer × World
unfolding form_text new_device_id device_rename_view
rename env form r = (
  done,
  (device_rename_view r.device (new_device_id env form) (form_text "confirm_merge" "" form == "yes")
      r.world).1,
)

-- compatible_firmwares, the latest first
unfoldable pub compatible_firmwares : Device → List Firmware → List Firmware
unfolding is_compatible select order_by
compatible_firmwares d firmwares =
    order_by (λ f g. leb g.uploaded_at f.uploaded_at) (select (is_compatible d) firmwares)

abbrev pub push_answer : Push × World → Answer × World
push_answer (sent, w) = (done, w)
push_answer (not_capable, w) = (bad_request "Device is not OTA-capable.", w)
push_answer (incompatible, w) =
    (bad_request "Firmware is not compatible with the device (hw_code/hw_rev mismatch).", w)
push_answer (no_base_url, w) = (bad_request "OTA_BASE_URL is not configured.", w)
push_answer (unpublished, w) = (bad_request "MQTT publish error.", w)

unfoldable pub push_chosen : ℕ → String → Option ℕ → Run → Option Firmware → Answer × World
unfolding send_ota_update
push_chosen now base by r none = (bad_request "Unknown or incompatible firmware.", r.world)
push_chosen now base by r (some f) = push_answer (send_ota_update now base f by r.device r.world)

-- The images that may be pushed, under their primary keys.
pub record Shelf : Type 0 where
  pub base_url : String
  pub firmwares : List Firmware
  pub pk : Firmware → ℕ

unfoldable pub push_key : Shelf → ℕ → Option ℕ → Run → Option (Option ℤ) → Answer × World
unfolding find compatible_firmwares push_chosen
push_key shelf now by r none = push_chosen now shelf.base_url by r none
push_key shelf now by r (some none) = (server_error, r.world)
push_key shelf now by r (some (some key)) =
    push_chosen now shelf.base_url by r
      (find (λ f. eqb_ℤ (pos (shelf.pk f)) key) (compatible_firmwares r.device shelf.firmwares))

-- device_ota_push_view, behind the lookup
unfoldable pub ota_push : Console → Shelf → ℕ → Option ℕ → Dict String → Run → Answer × World
unfolding get push_key
ota_push env shelf now by form r =
    push_key shelf now by r
      (elim (get "firmware_id" form) [ none ↦ none | some text ↦ some (env.parse_int text) ])

-- The views, each with what its form or its URL gives.
pub data Action : Type 0 where
  act_calibrate act_set_calibration act_confirm_uplink : Dict String → Action
  act_request_calibration act_request_status act_request_diag act_request_capabilities : Action
  act_command act_approve act_push act_rename : Dict String → Action
  act_edit : Dict String → List String → Action
  act_delete_command : ℕ → Action
  act_clear_commands act_delete : Action

-- A view behind the lookup and the check of the method.
unfoldable pub perform : Console → Shelf → ℕ → Option ℕ → Action → Run → Answer × World
unfolding post_calibration post_set_calibration post_set_confirm_uplink post_request_calibration
    post_request_status post_request_diag post_request_capabilities post_command approve ota_push
    edit rename delete_command clear_commands delete
perform env shelf now by (act_calibrate form) r = post_calibration env now by form r
perform env shelf now by (act_set_calibration form) r = post_set_calibration env now by form r
perform env shelf now by (act_confirm_uplink form) r = post_set_confirm_uplink now by form r
perform env shelf now by act_request_calibration r = post_request_calibration r
perform env shelf now by act_request_status r = post_request_status r
perform env shelf now by act_request_diag r = post_request_diag r
perform env shelf now by act_request_capabilities r = post_request_capabilities now by r
perform env shelf now by (act_command form) r = post_command env now by form r
perform env shelf now by (act_approve form) r = approve form r
perform env shelf now by (act_push form) r = ota_push env shelf now by form r
perform env shelf now by (act_edit form visible) r = edit env form visible r
perform env shelf now by (act_rename form) r = rename env form r
perform env shelf now by (act_delete_command pk) r = delete_command pk r
perform env shelf now by act_clear_commands r = clear_commands r
perform env shelf now by act_delete r = delete r

-- The answer to a request that is no POST: the edit, rename and delete views show a page.
abbrev pub unposted : Action → Answer
unposted (act_edit form visible) = done
unposted act_delete = done
unposted (act_rename form) = done
unposted _ = bad_request ""

unfoldable pub administer_found :
    Console → Shelf → ℕ → Option ℕ → String → Action → World → Option Device → Answer × World
unfolding perform
administer_found env shelf now by method act w none = (not_found, w)
administer_found env shelf now by method act w (some d) =
    if not (method == "POST")
    then (unposted act, w)
    else perform env shelf now by act (record { device = d; world = w })

-- A view, with get_object_or_404(Device, device_id=...).
unfoldable pub administer :
    Console → Shelf → ℕ → Option ℕ → String → String → Action → World → Answer × World
unfolding find_device administer_found
administer env shelf now by method id act w =
    administer_found env shelf now by method act w (find_device id w.devices)
