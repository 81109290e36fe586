-- ===== src/Ota/Push.antt =====
-- `send_ota_update` of web/ota/services.py.
use sensor_server.Prelude.{
  ℕ, String, ◌≡◌, refl, ◌∙◌, ap, ◌⊎◌, inl, inr, Bool, true, false, not, ◌&&◌, Option, none, some,
  List, [], ◌∷◌, ◌++◌, arith, eqb, ◌==◌, eq_iff, eq_refl, eqb→eq, pos, if◌then◌else◌, if_cases,
  and-left, and-right,
}
use sensor_server.Text.{concat, is_empty}
use sensor_server.Value.{Json, field, end, get, entries, truthy, is_text, json_eq}
use sensor_server.Store.{Device}
use sensor_server.World.{
  World, Message, CommandLog, pending, success, mqtt_publish, create_command, mark, update_where,
  pending_with, has_action, command_action,
}
use sensor_server.Mqtt.Requests.{
  command_topic, show, resolve_ota_updates, runs_target, command_version,
}
use sensor_server.Ota.Catalog.{Firmware}

-- How a push ends; `unpublished` is the exception of `_mqtt_publish`.
pub data Push : Type 0 where
  sent not_capable incompatible no_base_url unpublished : Push

-- firmware_download_url
unfoldable pub firmware_download_url : String → Firmware → String
unfolding concat show
firmware_download_url base f = concat base (
    concat "/fw/" (
      concat f.hw_code
        (concat "/" (concat (show f.hw_rev) (concat "/" (concat f.version ".bin"))))))

unfoldable pub ota_command : String → Firmware → Json
unfolding firmware_download_url
ota_command base f = Json.dict (
    field "action" (Json.str "ota_update") (
      field "value" (Json.str (firmware_download_url base f)) (
        field "md5" (Json.str f.md5) (
          field "ver" (Json.str f.version)
            (field "hw" (Json.str f.hw_code) (field "hwrev" (Json.int (pos f.hw_rev)) end))))))

abbrev pub is_same_text : Option String → String → Bool
is_same_text none b = false
is_same_text (some a) b = a == b

abbrev pub is_same_number : Option ℕ → ℕ → Bool
is_same_number none b = false
is_same_number (some a) b = eqb a b

-- The firmware is for the hardware of the device.
unfoldable pub is_compatible : Device → Firmware → Bool
is_compatible d f = is_same_text d.hardware_code f.hw_code && is_same_number d.hw_rev f.hw_rev

abbrev pub ota_message : String → Firmware → Device → Message
ota_message base f d = record {
  topic = command_topic d;
  payload = ota_command base f;
  retain = false;
  qos = 1;
}

abbrev pub pushed : ℕ → String → Firmware → Option ℕ → Device → Bool × World → Push × World
pushed now base f sent_by d (false, w) = (unpublished, w)
pushed now base f sent_by d (true, w) = (sent, create_command now d (ota_command base f) sent_by w)

-- send_ota_update
unfoldable pub send_ota_update : ℕ → String → Firmware → Option ℕ → Device → World → Push × World
unfolding ota_command is_compatible mqtt_publish create_command command_topic
send_ota_update now base f sent_by d w =
    if not d.ota_capable
    then (not_capable, w)
    else if not (is_compatible d f)
    then (incompatible, w)
    else if is_empty base
    then (no_base_url, w)
    else pushed now base f sent_by d (mqtt_publish (ota_message base f d) w)

-- Of the effects of a push that went through.
pub record IsPushed (now : ℕ) (base : String) (f : Firmware) (sent_by : Option ℕ) (d : Device)
    (w v : World) : Type 0 where
  pub capable : d.ota_capable ≡ true
  pub same_code : d.hardware_code ≡ some f.hw_code
  pub same_revision : d.hw_rev ≡ some f.hw_rev
  pub published :
      v.outbox
      ≡ w.outbox
        ++ record { topic = command_topic d; payload = ota_command base f; retain = false; qos = 1 }
          ∷ []
  pub logged :
      v.commands
      ≡ w.commands
        ++ record {
          pk = w.next_pk;
          device = d.device_id;
          command = ota_command base f;
          sent_at = now;
          sent_by = sent_by;
          status = pending;
          response_message = "";
          acked = false;
          acked_at = none;
        }
          ∷ []

is_same_text-eq : (o : Option String) (b : String) → is_same_text o b ≡ true → o ≡ some b
is_same_text-eq none b h = cc
is_same_text-eq (some a) b h = ap some ((eq_iff a b).0 h)

is_same_number-eq : (o : Option ℕ) (b : ℕ) → is_same_number o b ≡ true → o ≡ some b
is_same_number-eq none b h = cc
is_same_number-eq (some a) b h = ap some (eqb→eq a b h)

-- A push either goes through, and then the device can take updates and has the very hardware code
-- and revision of the firmware, one message is published and one pending command is logged; or it
-- publishes nothing and logs nothing.
pub send_ota_update-IsPushed :
    (now : ℕ) (base : String) (f : Firmware) (sent_by : Option ℕ) (d : Device) (w : World)
    → (((send_ota_update now base f sent_by d w).0 ≡ sent)
        × IsPushed now base f sent_by d w (send_ota_update now base f sent_by d w).1)
      ⊎ ((send_ota_update now base f sent_by d w).1.outbox ≡ w.outbox)
        × ((send_ota_update now base f sent_by d w).1.commands ≡ w.commands)
unfolding send_ota_update is_compatible mqtt_publish create_command
send_ota_update-IsPushed now base f sent_by d w =
    if_cases P (not d.ota_capable) (λ _. inr (refl, refl))
      (λ capable.
        if_cases P (not (is_compatible d f)) (λ _. inr (refl, refl))
          (λ fits.
            if_cases P (is_empty base) (λ _. inr (refl, refl))
              (λ _.
                if_cases (λ (o : Bool × World). P (pushed now base f sent_by d o))
                  (w.broker w.attempts)
                  (λ _. inl (
                    refl,
                    record {
                      capable = ground arith;
                      same_code =
                          is_same_text-eq d.hardware_code f.hw_code
                            (and-left _ (is_same_number d.hw_rev f.hw_rev) (ground arith));
                      same_revision =
                          is_same_number-eq d.hw_rev f.hw_rev
                            (and-right (is_same_text d.hardware_code f.hw_code) _ (ground arith));
                      published = refl;
                      logged = refl;
                    },
                  ))
                  (λ _. inr (refl, refl)))))
  where
    P : Push × World → Type 0
    P o =
        ((o.0 ≡ sent) × IsPushed now base f sent_by d w o.1)
        ⊎ (o.1.outbox ≡ w.outbox) × (o.1.commands ≡ w.commands)

update_where-append {ℓ} :
    {A : Type ℓ} (test : A → Bool) (change : A → A) (xs ys : List A)
    → update_where test change (xs ++ ys)
      ≡ update_where test change xs ++ update_where test change ys
unfolding update_where
update_where-append test change [] ys = refl
update_where-append test change (x ∷ xs) ys =
    ap (λ l. (if test x then change x else x) ∷ l) (update_where-append test change xs ys)

-- The command that a push logs.
abbrev pub pushed_command : ℕ → String → Firmware → Option ℕ → Device → ℕ → CommandLog
pushed_command now base f sent_by d pk = record {
  pk = pk;
  device = d.device_id;
  command = ota_command base f;
  sent_at = now;
  sent_by = sent_by;
  status = pending;
  response_message = "";
  acked = false;
  acked_at = none;
}

is_pushed :
    (now : ℕ) (base : String) (f : Firmware) (sent_by : Option ℕ) (d : Device) (pk : ℕ)
    → is_empty f.version ≡ false
    → (let c = pushed_command now base f sent_by d pk in
        pending_with d.device_id (Json.str "ota_update") c
        && runs_target (record d { fw_version = f.version }) c)
      ≡ true
unfolding pending_with has_action command_action json_eq ota_command runs_target command_version
    truthy is_text get entries
is_pushed now base f sent_by d pk h = rw (eq_refl d.device_id, eq_refl f.version, h) refl

-- The loop closes: when a device, whose log holds the command that a push has just appended, reports
-- the pushed version, that command ends as a success; the older rows are resolved by the same rule.
pub resolve_ota_updates-pushed :
    (now later : ℕ) (base : String) (f : Firmware) (sent_by : Option ℕ) (d : Device) (w v : World)
    → is_empty f.version ≡ false
    → IsPushed now base f sent_by d w v
    → (resolve_ota_updates later (record d { fw_version = f.version }) v).commands
      ≡ (resolve_ota_updates later (record d { fw_version = f.version }) w).commands
        ++ mark success
            (concat "Running " f.version)
            later
            (pushed_command now base f sent_by d w.next_pk)
          ∷ []
unfolding resolve_ota_updates update_where
resolve_ota_updates-pushed now later base f sent_by d w v h p =
    let test = λ (c : CommandLog).
      pending_with d.device_id (Json.str "ota_update") c
      && runs_target (record d { fw_version = f.version }) c in
    let change = λ (c : CommandLog). mark success (concat "Running " f.version) later c in
    let c = pushed_command now base f sent_by d w.next_pk in
    ap (λ cs. update_where test change cs) p.logged
    ∙ update_where-append test change w.commands (c ∷ [])
    ∙ ap (λ (b : Bool). update_where test change w.commands ++ (if b then change c else c) ∷ [])
        (is_pushed now base f sent_by d w.next_pk h)
