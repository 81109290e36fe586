-- ===== src/Mqtt/Effects/Devices.antt =====
-- The device rows under the writes of a message: approval never changes, rows stay valid, and no row
-- disappears.
use sensor_server.Text.{len}
use sensor_server.Prelude.{
  ◌≤◌, ℕ, String, ◌≡◌, ◌≢◌, refl, sym, ◌∙◌, subst, ◌⊎◌, inl, inr, Bool, false, Option, none, some,
  [], ◌∷◌, ◌++◌, arith, Bool-cases, ◌==◌, eq_iff,
}
use sensor_server.Store.{Device, new_device}
use sensor_server.World.{
  World, find_device, update_device, mqtt_publish, log_status, create_command, group_send,
}
use sensor_server.World.Tables.{
  find_device-update_self, find_device-update_ne, find_device-append_self, find_device-append_ne,
}
use sensor_server.Mqtt.Effects.{
  Effect, Effects, saves, discovers, sends, marks, creates, logs_status, logs_diag, notifies,
  stores, IsValid,
}
use sensor_server.Mqtt.Effects.Closure.{Effects-induction}

-- The approval of the row of `j`; a device with no row has none.
abbrev pub approval : Option Device → Bool
approval none = false
approval (some d) = d.is_approved

-- Every row is valid.
pub record AllValid (w : World) : Type 0 where
  pub row : (j : String) (d : Device) → find_device j w.devices ≡ some d → IsValid d

pub new_device-IsValid :
    (id device_type : String) → len device_type ≤ 64 → IsValid (new_device id device_type)
unfolding new_device
new_device-IsValid id device_type fits = record {
  device_type_fits = fits;
  quiet = λ _. (refl, refl);
  message_fits = omega arith;
  hardware_id_fits = omega arith;
  fw_version_fits = omega arith;
  hw_rev_fits = tt;
  interval_fits = omega arith;
  display_name_fits = omega arith;
  location_fits = omega arith;
  location_type_fits = omega arith;
  cells_fit = omega arith;
}

same_or_not : (j id : String) → (j ≡ id) ⊎ (j ≢ id)
same_or_not j id = elim (Bool-cases (j == id)) [
  | inl same ↦ inl ((eq_iff j id).0 same)
  | inr apart ↦ inr (λ e. ground (arith, eq_iff j id))
]

-- What an effect makes of the row of `j`: the row as it was, a valid successor of the same approval,
-- or a new row.
data RowStep (old : Option Device) : Option Device → Type 0 where
  same : RowStep old old
  changed :
      (row next : Device)
      → old ≡ some row
      → next.is_approved ≡ row.is_approved
      → (IsValid row → IsValid next)
      → RowStep old (some next)
  created :
      (id device_type : String)
      → old ≡ none
      → len device_type ≤ 64
      → RowStep old (some (new_device id device_type))

Effect-RowStep :
    {now : ℕ} {id : String} {w v : World} (j : String)
    → Effect now id w v
    → RowStep (find_device j w.devices) (find_device j v.devices)
unfolding mqtt_publish log_status create_command group_send
Effect-RowStep {id} {w} j (saves f row found keeps approved valid) = elim (same_or_not j id) [
  | inl e ↦
      subst (λ k. RowStep (find_device k w.devices) (find_device k (update_device id f w.devices)))
        (sym e)
        (rw (find_device-update_self id f keeps w.devices row found)
          (changed row (f row) found approved valid))
  | inr ne ↦ rw (find_device-update_ne id f keeps j w.devices ne) same
]
Effect-RowStep {id} {w} j (discovers t unknown fits) = elim (same_or_not j id) [
  | inl e ↦
      subst
        (λ k. RowStep (find_device k w.devices) (find_device k (w.devices ++ new_device id t ∷ [])))
        (sym e)
        (rw
          (find_device-append_self id w.devices (new_device id t) unknown
            (unfold new_device in refl))
          (created id t unknown fits))
  | inr ne ↦ rw (find_device-append_ne j w.devices (new_device id t) (unfold new_device in ne)) same
]
Effect-RowStep {w} j (sends m one_shot) = elim (Bool-cases (w.broker w.attempts)) [
  | inl taken ↦ rw (taken, mqtt_publish) same
  | inr lost ↦ rw (lost, mqtt_publish) same
]
Effect-RowStep j (marks status message test terminal selects) = same
Effect-RowStep j (creates d command sent_by own) = same
Effect-RowStep j (logs_status d own) = same
Effect-RowStep j (logs_diag s own) = same
Effect-RowStep j (notifies e) = same
Effect-RowStep j (stores readings approved own) = same

RowStep-approval : {o n : Option Device} → RowStep o n → approval n ≡ approval o
unfolding new_device
RowStep-approval same = refl
RowStep-approval (changed row next e a v) = rw e a
RowStep-approval (created id t e fits) = rw e

-- Whatever a message does, it approves no device and revokes none.
pub Effects-approval :
    {now : ℕ} {id : String} {w v : World} (j : String)
    → Effects now id w v
    → approval (find_device j v.devices) ≡ approval (find_device j w.devices)
Effects-approval j =
    Effects-induction
      (λ w v. approval (find_device j v.devices) ≡ approval (find_device j w.devices)) (λ w. refl)
      (λ w u v p e. RowStep-approval (Effect-RowStep j e) ∙ p)

RowStep-IsValid :
    {o n : Option Device}
    → RowStep o n
    → ((d : Device) → o ≡ some d → IsValid d)
    → (d : Device) → n ≡ some d
    → IsValid d
RowStep-IsValid same all d h = all d h
RowStep-IsValid (changed row next e a v) all d h = subst IsValid (ground arith) (v (all row e))
RowStep-IsValid (created id t e fits) all d h =
    subst IsValid (ground arith) (new_device-IsValid id t fits)

Effect-AllValid :
    {now : ℕ} {id : String} {w v : World} → Effect now id w v → AllValid w → AllValid v
Effect-AllValid e all = record { row = λ j. RowStep-IsValid (Effect-RowStep j e) (all.row j) }

pub Effects-AllValid :
    {now : ℕ} {id : String} {w v : World} → Effects now id w v → AllValid w → AllValid v
Effects-AllValid =
    Effects-induction (λ w v. AllValid w → AllValid v) (λ w h. h)
      (λ w u v p e h. Effect-AllValid e (p h))
