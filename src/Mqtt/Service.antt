-- ===== src/Mqtt/Service.antt =====
-- What the bridge guarantees over any sequence of messages: `serve` of Mqtt/Worker.antt, which runs
-- the handlers of web/mqtt_bridge/services.py one message after the other.
use sensor_server.Prelude.{
  ℕ, String, ◌≡◌, ◌≢◌, refl, ◌∙◌, inl, inr, false, some, List, [], ◌∷◌, All, arith, subst, select,
  ap, ◌==◌, Bool-cases, eq_iff,
}
use sensor_server.Value.{Python}
use sensor_server.World.{World, SensorReading, find_device}
use sensor_server.Mqtt.Topic.{Topic, parse_topic}
use sensor_server.Mqtt.Worker.{Delivery, on_message, serve}
use sensor_server.Mqtt.Effects.{Effects, IsOneShot}
use sensor_server.Mqtt.Effects.Frame.{SameFor, SameFor-refl, SameFor-trans, Effects-SameFor}
use sensor_server.Mqtt.Effects.Lifecycle.{Evolves, Evolves-refl, Evolves-trans, Effects-Evolves}
use sensor_server.Mqtt.Effects.Devices.{approval, AllValid, Effects-approval, Effects-AllValid}
use sensor_server.Mqtt.Effects.Records.{
  Extends, Extends-refl, Extends-trans, Effects-outbox, Effects-unapproved,
}
use sensor_server.Mqtt.Effects.Keys.{IsKeyed, Effects-IsKeyed}
use sensor_server.Mqtt.Confined.Worker.{on_message-cases}

-- The message is not for the device `j`.
abbrev pub NotFor : String → Delivery → Type 0
NotFor j m = (t : Topic) → parse_topic m.topic ≡ some t → j ≢ t.device_id

on_message-IsKeyed :
    (py : Python) (m : Delivery) (w : World)
    → IsKeyed w
    → IsKeyed (on_message py m.time m.topic m.payload w).1
on_message-IsKeyed py m w keyed =
    on_message-cases py m.time m.topic m.payload w IsKeyed keyed keyed
      (λ t v h e. Effects-IsKeyed e keyed)

-- A command log that is keyed by growing primary keys, all below the next one, stays so over any
-- sequence of messages.
pub serve-IsKeyed :
    (py : Python) (ms : List Delivery) (w : World) → IsKeyed w → IsKeyed (serve py ms w)
unfolding serve
serve-IsKeyed py [] w keyed = keyed
serve-IsKeyed py (m ∷ ms) w keyed =
    serve-IsKeyed py ms (on_message py m.time m.topic m.payload w).1
      (on_message-IsKeyed py m w keyed)

-- The rule of induction over the messages, for what every write of a message keeps.
serve-induction {ℓ κ} :
    (Q : Delivery → Type ℓ) (P : World → Type κ) (py : Python)
    → ((m : Delivery) (t : Topic) (u v : World)
        → Q m
        → parse_topic m.topic ≡ some t
        → Effects m.time t.device_id u v
        → P u
        → P v)
    → (ms : List Delivery) → All Q ms
    → (w : World) → IsKeyed w
    → P w
    → P (serve py ms w)
unfolding serve
serve-induction Q P py step [] qs w keyed h = h
serve-induction Q P py step (m ∷ ms) qs w keyed h =
    serve-induction Q P py step ms qs.1 (on_message py m.time m.topic m.payload w).1
      (on_message-IsKeyed py m w keyed)
      (on_message-cases py m.time m.topic m.payload w P keyed h
        (λ t v e effects. step m t w v qs.0 e effects h))

always : (ms : List Delivery) → All {0, 0} (λ m. Unit) ms
always [] = tt
always (m ∷ ms) = (tt, always ms)

-- From a state with a keyed command log, messages whose topics name other devices leave the row of a device, its commands, its alert log,
-- its diagnostic log and its readings exactly as they were, whatever the payloads say.
pub serve-SameFor :
    (py : Python) (j : String) (ms : List Delivery) (w : World)
    → IsKeyed w
    → All (NotFor j) ms
    → SameFor j w (serve py ms w)
serve-SameFor py j ms w keyed others =
    serve-induction (NotFor j) (SameFor j w) py
      (λ m t u v other e effects h. SameFor-trans j h (Effects-SameFor j (other t e) effects)) ms
      others w keyed (SameFor-refl j w)

-- From a state with a keyed command log, over any sequence of messages each row of it keeps its key, device, command, sender
-- and time; it changes only by a pending command's move to a terminal status, so a terminal row
-- never changes again; new rows stand behind the old ones.
pub serve-Evolves :
    (py : Python) (ms : List Delivery) (w : World)
    → IsKeyed w
    → Evolves w.commands (serve py ms w).commands
serve-Evolves py ms w keyed =
    serve-induction (λ m. Unit) (λ v. Evolves w.commands v.commands) py
      (λ m t u v q e effects h.
        Evolves-trans w.commands u.commands v.commands h (Effects-Evolves effects))
      ms (always ms) w keyed (Evolves-refl w.commands)

-- From a state with a keyed command log: if every device row is valid (its device type, alert message,
-- hardware id, firmware version, display name and location fit their columns, the hardware revision is
-- in the range of its column, the publish interval and the cell count are at most a day and 10, and a
-- clear alert has no message and no time), then every row is valid after any sequence of messages.
pub serve-AllValid :
    (py : Python) (ms : List Delivery) (w : World)
    → IsKeyed w
    → AllValid w
    → AllValid (serve py ms w)
serve-AllValid py ms w keyed valid =
    serve-induction (λ m. Unit) AllValid py (λ m t u v q e effects h. Effects-AllValid effects h) ms
      (always ms) w keyed valid

-- From a state with a keyed command log, no sequence of messages approves a device or revokes an
-- approval.
pub serve-approval :
    (py : Python) (j : String) (ms : List Delivery) (w : World)
    → IsKeyed w
    → approval (find_device j (serve py ms w).devices) ≡ approval (find_device j w.devices)
serve-approval py j ms w keyed =
    serve-induction (λ m. Unit)
      (λ v. approval (find_device j v.devices) ≡ approval (find_device j w.devices)) py
      (λ m t u v q e effects h. Effects-approval j effects ∙ h) ms (always ms) w keyed refl

-- From a state with a keyed command log, everything that the bridge publishes while it serves messages is queued and not retained, and what
-- was published before stays in front.
pub serve-IsOneShot :
    (py : Python) (ms : List Delivery) (w : World)
    → IsKeyed w
    → Extends IsOneShot w.outbox (serve py ms w).outbox
serve-IsOneShot py ms w keyed =
    serve-induction (λ m. Unit) (λ v. Extends IsOneShot w.outbox v.outbox) py
      (λ m t u v q e effects h. Extends-trans IsOneShot h (Effects-outbox effects)) ms (always ms) w
      keyed (Extends-refl IsOneShot w.outbox)

-- The device has no approval, and its readings are those of `w`.
pub record Waiting (j : String) (w v : World) : Type 0 where
  pub unapproved : approval (find_device j v.devices) ≡ false
  pub kept :
      select (λ s. s.device_id == j) v.readings
      ≡ select (λ (s : SensorReading). s.device_id == j) w.readings

pub Waiting-step :
    {now : ℕ} {id : String} (j : String) {w u v : World}
    → Effects now id u v
    → Waiting j w u
    → Waiting j w v
Waiting-step {id} j {u = u} e h = record {
  unapproved = Effects-approval j e ∙ h.unapproved;
  kept = elim (Bool-cases (j == id)) [
    | inl own ↦
        ap (λ rs. select (λ (s : SensorReading). s.device_id == j) rs)
          (Effects-unapproved
            (subst (λ k. approval (find_device k u.devices) ≡ false) ((eq_iff j id).0 own)
              h.unapproved)
            e)
        ∙ h.kept
    | inr other ↦ (Effects-SameFor j (λ same. ground (arith, eq_iff j id)) e).readings ∙ h.kept
  ];
}

-- From a state with a keyed command log: no reading of a device is stored while the device is unapproved, or unknown when the messages
-- begin, whatever the messages are.
pub serve-unapproved :
    (py : Python) (j : String) (ms : List Delivery) (w : World)
    → IsKeyed w
    → approval (find_device j w.devices) ≡ false
    → select (λ s. s.device_id == j) (serve py ms w).readings
      ≡ select (λ (s : SensorReading). s.device_id == j) w.readings
serve-unapproved py j ms w keyed h =
    (serve-induction (λ m. Unit) (Waiting j w) py
      (λ m t u v q e effects g. Waiting-step j effects g) ms (always ms) w keyed
      (record { unapproved = h; kept = refl })).kept
