-- ===== src/Mqtt/Confined.antt =====
-- How the steps of a handler stay inside the writes of Effects.antt while the device in memory and
-- its row agree.
pub mod Requests
pub mod Arrival
pub mod Sensor
pub mod Reports
pub mod Capabilities
pub mod Ack
pub mod Worker
use sensor_server.Prelude.{
  ℕ, String, ◌≡◌, refl, sym, ◌∙◌, subst, Bool, true, false, some, List, [], ◌∷◌, ◌&&◌, All, arith,
  ap, Bool-cases, if◌then◌else◌, eq_iff, ◌==◌,
}
use sensor_server.Value.{Json}
use sensor_server.Store.{Device}
use sensor_server.World.{
  World, Run, CommandLog, Status, pending, is_pending, is_terminal, pending_with, find_device,
  update_device, save, log_status, update_where, mark,
}
use sensor_server.World.Tables.{find_device-device_id, find_device-update_self}
use sensor_server.Mqtt.Alert.{announce, log_and_announce}
use sensor_server.Mqtt.Effects.{
  Effect, Effects, done, saves, marks, logs_status, notifies, IsValid, SelectsPending,
}
use sensor_server.Mqtt.Effects.Closure.{one, and_then}

-- The row of the device is the device in memory.
abbrev pub Found : String → Run → Type 0
Found id r = find_device id r.world.devices ≡ some r.device

pub Found-device_id : (id : String) (r : Run) → Found id r → r.device.device_id ≡ id
Found-device_id id r h = find_device-device_id id r.world.devices r.device h

-- Writes that leave the device table alone.
pub record Quiet (now : ℕ) (id : String) (w v : World) : Type 0 where
  pub effects : Effects now id w v
  pub devices : v.devices ≡ w.devices

-- Writes after which the row and the memory agree.
pub record Reaches (now : ℕ) (id : String) (r s : Run) : Type 0 where
  pub effects : Effects now id r.world s.world
  pub found : Found id s

module _ {now : ℕ} {id : String} where
  pub Quiet-refl : (w : World) → Quiet now id w w
  Quiet-refl w = record { effects = done; devices = refl }

  pub Quiet-trans : {w u v : World} → Quiet now id w u → Quiet now id u v → Quiet now id w v
  Quiet-trans p q = record {
    effects = and_then p.effects q.effects;
    devices = q.devices ∙ p.devices;
  }

  pub Quiet-if :
      (b : Bool) {w u v : World}
      → Quiet now id w u
      → Quiet now id w v
      → Quiet now id w (if b then u else v)
  Quiet-if true p q = p
  Quiet-if false p q = q

  pub Reaches-refl : (r : Run) → Found id r → Reaches now id r r
  Reaches-refl r h = record { effects = done; found = h }

  pub Reaches-trans : {r s t : Run} → Reaches now id r s → Reaches now id s t → Reaches now id r t
  Reaches-trans p q = record { effects = and_then p.effects q.effects; found = q.found }

  pub Reaches-if :
      (b : Bool) {r s t : Run}
      → Reaches now id r s
      → Reaches now id r t
      → Reaches now id r (if b then s else t)
  Reaches-if true p q = p
  Reaches-if false p q = q

  -- A quiet step, the device in memory unchanged.
  pub Quiet-Reaches :
      (r : Run) (v : World)
      → Found id r
      → Quiet now id r.world v
      → Reaches now id r (record r { world = v })
  Quiet-Reaches r v h q = record {
    effects = q.effects;
    found = ap (λ ds. find_device id ds) q.devices ∙ h;
  }

  -- A save after which the row is the device in memory: every changed field is on the list.
  pub save-Reaches :
      (copy : Device → Device → Device) (d : Device) (r : Run)
      → Found id r
      → ((row : Device) → (copy d row).device_id ≡ row.device_id)
      → copy d r.device ≡ d
      → d.device_id ≡ r.device.device_id
      → d.is_approved ≡ r.device.is_approved
      → (IsValid r.device → IsValid d)
      → Reaches now id r (record { device = d; world = save copy d r.world })
  unfolding save
  save-Reaches copy d r h keeps whole same_id same_approval valid =
      let own = sym (same_id ∙ Found-device_id id r h) in
      record {
        effects =
            subst
              (λ k.
                Effects now id r.world
                  (record r.world { devices = update_device k (copy d) r.world.devices }))
              own
              (one (
                saves (copy d) r.device h keeps (ap (λ e. e.is_approved) whole ∙ same_approval)
                  (λ v. subst IsValid (sym whole) (valid v))));
        found =
            subst (λ k. find_device id (update_device k (copy d) r.world.devices) ≡ some d) own
              (find_device-update_self id (copy d) keeps r.world.devices r.device h
                ∙ ap some whole);
      }

  pub log_status-Quiet :
      (d : Device) (w : World) → d.device_id ≡ id → Quiet now id w (log_status now d w)
  log_status-Quiet d w own = record {
    effects = one (logs_status d own);
    devices = unfold log_status in refl;
  }

  pub log_and_announce-Quiet :
      (d : Device) (w : World) → d.device_id ≡ id → Quiet now id w (log_and_announce now d w)
  unfolding log_and_announce
  log_and_announce-Quiet d w own =
      Quiet-trans (log_status-Quiet d w own) (record { effects = one (notifies _); devices = refl })

  pub marks-Quiet :
      (status : Status) (message : String) (test : CommandLog → Bool) (w : World)
      → is_terminal status ≡ true
      → SelectsPending id test w.commands
      → Quiet now id w
          (record w { commands = update_where test (mark status message now) w.commands })
  marks-Quiet status message test w terminal selects = record {
    effects = one (marks status message test terminal selects);
    devices = refl;
  }

-- A fact of all values holds of the members of a list.
pub All-of {ℓ κ} : {A : Type ℓ} (P : A → Type κ) → ((x : A) → P x) → (xs : List A) → All P xs
All-of P h [] = tt
All-of P h (x ∷ xs) = (h x, All-of P h xs)

-- `pending_with` selects pending commands of its device, alone or with a further test.
pub pending_with-selects :
    (id device : String) (action : Json) (extra : CommandLog → Bool)
    → device ≡ id
    → (c : CommandLog) → (pending_with device action c && extra c) ≡ true
    → (c.device ≡ id) × (c.status ≡ pending)
unfolding pending_with
pending_with-selects id device action extra own c h = ground (arith, eq_iff c.device device)

pub pending_with-selects_one :
    (id device : String) (action : Json)
    → device ≡ id
    → (c : CommandLog) → pending_with device action c ≡ true
    → (c.device ≡ id) × (c.status ≡ pending)
unfolding pending_with
pending_with-selects_one id device action own c h = ground (arith, eq_iff c.device device)
