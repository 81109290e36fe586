-- ===== src/Mqtt/Effects/Frame.antt =====
-- Writes on behalf of one device leave what belongs to every other device alone.
use sensor_server.Prelude.{
  ℕ, String, ◌≡◌, ◌≢◌, refl, sym, ◌∙◌, Bool, false, List, [], ◌∷◌, ◌++◌, All, arith, ◌==◌, eq_iff,
  select, append-nil,
}
use sensor_server.World.{
  World, CommandLog, StatusLog, DiagLog, SensorReading, find_device, update_where, mqtt_publish,
  mark, log_status, create_command, group_send,
}
use sensor_server.Store.{new_device}
use sensor_server.World.Tables.{find_device-update_ne, find_device-append_ne, select-append}
use sensor_server.Mqtt.Effects.{
  Effect, Effects, saves, discovers, sends, marks, creates, logs_status, logs_diag, notifies,
  stores, IsReading, SelectsPending,
}
use sensor_server.Mqtt.Effects.Closure.{Effects-induction}

-- Two worlds agree on all rows of the device `j`.
pub record SameFor (j : String) (w v : World) : Type 0 where
  pub device : find_device j v.devices ≡ find_device j w.devices
  pub commands :
      select (λ c. c.device == j) v.commands ≡ select (λ (c : CommandLog). c.device == j) w.commands
  pub status_logs :
      select (λ s. s.device == j) v.status_logs
      ≡ select (λ (s : StatusLog). s.device == j) w.status_logs
  pub diag_logs :
      select (λ s. s.device == j) v.diag_logs ≡ select (λ (s : DiagLog). s.device == j) w.diag_logs
  pub readings :
      select (λ s. s.device_id == j) v.readings
      ≡ select (λ (s : SensorReading). s.device_id == j) w.readings

pub SameFor-refl : (j : String) (w : World) → SameFor j w w
SameFor-refl j w = record {
  device = refl;
  commands = refl;
  status_logs = refl;
  diag_logs = refl;
  readings = refl;
}

pub SameFor-trans : (j : String) {w u v : World} → SameFor j w u → SameFor j u v → SameFor j w v
SameFor-trans j p q = record {
  device = q.device ∙ p.device;
  commands = q.commands ∙ p.commands;
  status_logs = q.status_logs ∙ p.status_logs;
  diag_logs = q.diag_logs ∙ p.diag_logs;
  readings = q.readings ∙ p.readings;
}

-- Appended rows that a selection skips do not show in it.
select-append_skipped {ℓ} :
    {A : Type ℓ} (p : A → Bool) (xs ys : List A)
    → select p ys ≡ []
    → select p (xs ++ ys) ≡ select p xs
select-append_skipped p xs ys h = rw (select-append p xs ys, h) (append-nil (select p xs))

select-one_skipped {ℓ} : {A : Type ℓ} (p : A → Bool) (x : A) → p x ≡ false → select p (x ∷ []) ≡ []
unfolding select
select-one_skipped p x h = ground arith

-- Texts that differ compare as false.
pub eq-false : (s t : String) → s ≢ t → (s == t) ≡ false
eq-false s t h = ground (arith, eq_iff s t)

select-readings :
    (now : ℕ) (id j : String)
    → j ≢ id
    → (readings : List SensorReading) → All (IsReading now id) readings
    → select (λ s. s.device_id == j) readings ≡ []
unfolding select
select-readings now id j ne [] h = refl
select-readings now id j ne (s ∷ rest) h =
    ground (arith, h.0.of_device, eq_iff s.device_id j, select-readings now id j ne rest h.1)

marked_skipped :
    (now : ℕ) (id j : String) (test : CommandLog → Bool) (change : CommandLog → CommandLog)
    → j ≢ id
    → ((c : CommandLog) → (change c).device ≡ c.device)
    → (cs : List CommandLog) → SelectsPending id test cs
    → select (λ c. c.device == j) (update_where test change cs) ≡ select (λ c. c.device == j) cs
unfolding select update_where
marked_skipped now id j test change ne keeps [] h = refl
marked_skipped now id j test change ne keeps (c ∷ cs) h =
    ground
      (arith, keeps c, h.0, eq_iff c.device j, marked_skipped now id j test change ne keeps cs h.1)

-- One write for `id` changes nothing for another device.
pub Effect-SameFor :
    {now : ℕ} {id : String} {w v : World} (j : String) → j ≢ id → Effect now id w v → SameFor j w v
unfolding mqtt_publish log_status create_command group_send mark new_device
Effect-SameFor {id} {w} j ne (saves f row found keeps approved valid) = record {
  device = find_device-update_ne id f keeps j w.devices ne;
  commands = refl;
  status_logs = refl;
  diag_logs = refl;
  readings = refl;
}
Effect-SameFor {w} j ne (discovers t unknown fits) = record {
  device = find_device-append_ne j w.devices (new_device _ t) ne;
  commands = refl;
  status_logs = refl;
  diag_logs = refl;
  readings = refl;
}
Effect-SameFor {w} j ne (sends m one_shot) = ground arith
Effect-SameFor {now} {id} {w} j ne (marks status message test terminal selects) = record {
  commands =
      marked_skipped now id j test (mark status message now) ne (λ c. refl) w.commands selects;
  device = refl;
  status_logs = refl;
  diag_logs = refl;
  readings = refl;
}
Effect-SameFor {w} j ne (creates d command sent_by own) = record {
  commands =
      select-append_skipped _ w.commands _
        (select-one_skipped _ _ (eq-false d.device_id j (λ e. ne (sym e ∙ own))));
  device = refl;
  status_logs = refl;
  diag_logs = refl;
  readings = refl;
}
Effect-SameFor {w} j ne (logs_status d own) = record {
  status_logs =
      select-append_skipped _ w.status_logs _
        (select-one_skipped _ _ (eq-false d.device_id j (λ e. ne (sym e ∙ own))));
  device = refl;
  commands = refl;
  diag_logs = refl;
  readings = refl;
}
Effect-SameFor {w} j ne (logs_diag s own) = record {
  diag_logs =
      select-append_skipped _ w.diag_logs _
        (select-one_skipped _ _ (eq-false s.device j (λ e. ne (sym e ∙ own))));
  device = refl;
  commands = refl;
  status_logs = refl;
  readings = refl;
}
Effect-SameFor {w} j ne (notifies e) = record {
  device = refl;
  commands = refl;
  status_logs = refl;
  diag_logs = refl;
  readings = refl;
}
Effect-SameFor {now} {id} {w} j ne (stores readings approved own) = record {
  readings = select-append_skipped _ w.readings readings (select-readings now id j ne readings own);
  device = refl;
  commands = refl;
  status_logs = refl;
  diag_logs = refl;
}

pub Effects-SameFor :
    {now : ℕ} {id : String} {w v : World} (j : String) → j ≢ id → Effects now id w v → SameFor j w v
Effects-SameFor j ne =
    Effects-induction (SameFor j) (SameFor-refl j)
      (λ w u v p e. SameFor-trans j p (Effect-SameFor j ne e))
