-- ===== src/Mqtt/Effects/Records.antt =====
-- The append-only tables and the outbox under the writes of a message.
use sensor_server.Prelude.{
  ℕ, String, ◌≡◌, refl, sym, ap, ◌∙◌, inl, inr, false, List, [], ◌∷◌, ◌++◌, All, All-append, arith,
  append-nil, append_assoc, Bool-cases, Option, none, some,
}
use sensor_server.Store.{Device}
use sensor_server.World.{World, find_device, mqtt_publish, log_status, create_command, group_send}
use sensor_server.Mqtt.Effects.{
  Effect, Effects, done, also, saves, discovers, sends, marks, creates, logs_status, logs_diag,
  notifies, stores, IsReading, IsOneShot, IsApprovedRow,
}
use sensor_server.Mqtt.Effects.Devices.{approval, Effects-approval}
use sensor_server.Mqtt.Effects.Closure.{Effects-induction}

-- `ys` is `xs` with more behind it, and what was added satisfies `P`.
pub record Extends {ℓ} {A : Type ℓ} (P : A → Type 0) (xs ys : List A) : Type ℓ where
  pub added : List A
  pub behind : ys ≡ xs ++ added
  pub good : All P added

module _ {ℓ} {A : Type ℓ} (P : A → Type 0) where
  pub Extends-refl : (xs : List A) → Extends P xs xs
  Extends-refl xs = record { added = []; behind = sym (append-nil xs); good = tt }

  pub Extends-one : (xs : List A) (x : A) → P x → Extends P xs (xs ++ x ∷ [])
  Extends-one xs x h = record { added = x ∷ []; behind = refl; good = (h, tt) }

  pub Extends-trans : {xs ys zs : List A} → Extends P xs ys → Extends P ys zs → Extends P xs zs
  Extends-trans {xs = xs} p q = record {
    added = p.added ++ q.added;
    behind = q.behind ∙ ap (λ l. l ++ q.added) p.behind ∙ append_assoc xs p.added q.added;
    good = All-append P p.added q.added p.good q.good;
  }

Effect-outbox :
    {now : ℕ} {id : String} {w v : World} → Effect now id w v → Extends IsOneShot w.outbox v.outbox
unfolding mqtt_publish log_status create_command group_send
Effect-outbox {w} (sends m one_shot) = elim (Bool-cases (w.broker w.attempts)) [
  | inl taken ↦ rw (taken, mqtt_publish) (Extends-one IsOneShot w.outbox m one_shot)
  | inr lost ↦ rw (lost, mqtt_publish) (Extends-refl IsOneShot w.outbox)
]
Effect-outbox {w} (saves f row found keeps approved valid) = Extends-refl IsOneShot w.outbox
Effect-outbox {w} (discovers t unknown fits) = Extends-refl IsOneShot w.outbox
Effect-outbox {w} (marks status message test terminal selects) = Extends-refl IsOneShot w.outbox
Effect-outbox {w} (creates d command sent_by own) = Extends-refl IsOneShot w.outbox
Effect-outbox {w} (logs_status d own) = Extends-refl IsOneShot w.outbox
Effect-outbox {w} (logs_diag s own) = Extends-refl IsOneShot w.outbox
Effect-outbox {w} (notifies e) = Extends-refl IsOneShot w.outbox
Effect-outbox {w} (stores readings approved own) = Extends-refl IsOneShot w.outbox

pub Effects-outbox :
    {now : ℕ} {id : String} {w v : World} → Effects now id w v → Extends IsOneShot w.outbox v.outbox
Effects-outbox =
    Effects-induction (λ w v. Extends IsOneShot w.outbox v.outbox)
      (λ w. Extends-refl IsOneShot w.outbox)
      (λ w u v p e. Extends-trans IsOneShot p (Effect-outbox e))

Effect-readings :
    {now : ℕ} {id : String} {w v : World}
    → Effect now id w v
    → Extends (IsReading now id) w.readings v.readings
unfolding mqtt_publish log_status create_command group_send
Effect-readings {now} {id} {w} (sends m one_shot) = elim (Bool-cases (w.broker w.attempts)) [
  | inl taken ↦ rw (taken, mqtt_publish) (Extends-refl (IsReading now id) w.readings)
  | inr lost ↦ rw (lost, mqtt_publish) (Extends-refl (IsReading now id) w.readings)
]
Effect-readings {now} {id} {w} (stores readings approved own) = record {
  added = readings;
  behind = refl;
  good = own;
}
Effect-readings {now} {id} {w} (saves f row found keeps approved valid) =
    Extends-refl (IsReading now id) w.readings
Effect-readings {now} {id} {w} (discovers t unknown fits) =
    Extends-refl (IsReading now id) w.readings
Effect-readings {now} {id} {w} (marks status message test terminal selects) =
    Extends-refl (IsReading now id) w.readings
Effect-readings {now} {id} {w} (creates d command sent_by own) =
    Extends-refl (IsReading now id) w.readings
Effect-readings {now} {id} {w} (logs_status d own) = Extends-refl (IsReading now id) w.readings
Effect-readings {now} {id} {w} (logs_diag s own) = Extends-refl (IsReading now id) w.readings
Effect-readings {now} {id} {w} (notifies e) = Extends-refl (IsReading now id) w.readings

-- Readings are only added, and each is the device's own.
pub Effects-readings :
    {now : ℕ} {id : String} {w v : World}
    → Effects now id w v
    → Extends (IsReading now id) w.readings v.readings
Effects-readings {now} {id} =
    Effects-induction (λ w v. Extends (IsReading now id) w.readings v.readings)
      (λ w. Extends-refl (IsReading now id) w.readings)
      (λ w u v p e. Extends-trans (IsReading now id) p (Effect-readings e))

Effect-unapproved :
    {now : ℕ} {id : String} {w v : World}
    → approval (find_device id w.devices) ≡ false
    → Effect now id w v
    → v.readings ≡ w.readings
unfolding mqtt_publish log_status create_command group_send
Effect-unapproved h (sends m one_shot) = ground arith
Effect-unapproved {w} h (stores readings approved own) = absurd (refuse _ h approved)
  where
    refuse : (o : Option Device) → approval o ≡ false → IsApprovedRow o → ⊥
    refuse none a b = b
    refuse (some d) a b = cc
Effect-unapproved h (saves f row found keeps approved valid) = refl
Effect-unapproved h (discovers t unknown fits) = refl
Effect-unapproved h (marks status message test terminal selects) = refl
Effect-unapproved h (creates d command sent_by own) = refl
Effect-unapproved h (logs_status d own) = refl
Effect-unapproved h (logs_diag s own) = refl
Effect-unapproved h (notifies e) = refl

-- While the device is not approved no reading is stored.
pub Effects-unapproved :
    {now : ℕ} {id : String} {w v : World}
    → approval (find_device id w.devices) ≡ false
    → Effects now id w v
    → v.readings ≡ w.readings
Effects-unapproved h done = refl
Effects-unapproved {id} h (also p e) =
    Effect-unapproved (Effects-approval id p ∙ h) e ∙ Effects-unapproved h p
