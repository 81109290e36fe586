-- ===== src/Mqtt/Queue.antt =====
-- The command queue of web/mqtt_bridge/services.py: what a flush publishes, and what the two
-- resolution rules for OTA updates and the timeout of capability requests leave pending.
use mathlib.Core.List.{Perm}
use mathlib.Core.List.Perm
use sensor_server.Prelude.{
  ℕ, ◌+◌, ◌*◌, ◌≤◌, String, ◌≡◌, refl, sym, ◌∙◌, Bool, true, false, none, some, not, ◌&&◌, List, [],
  ◌∷◌, ◌++◌, All, arith, append-nil, append_assoc, map, select, ltb, leb, if_cases, leb→le, ◌==◌,
}
use sensor_server.Text.{concat}
use sensor_server.Value.{Json, json_eq}
use sensor_server.Store.{Device, second}
use sensor_server.World.{
  World, Message, CommandLog, Status, success, timeout, is_terminal, is_pending, mqtt_publish, mark,
  pending_with, update_where, command_action,
}
use sensor_server.Mqtt.Requests.{
  command_topic, send_command, insert_by_sent_at, order_by_sent_at, awaits_flush, is_not_excluded,
  publish_commands, flush_pending_commands, runs_target, resolve_ota_updates, ota_timeout,
  check_ota_timeouts, resolve_capability_requests, show,
}

-- The message of a command.
abbrev pub message_of : Device → CommandLog → Message
message_of d c = record { topic = command_topic d; payload = c.command; retain = false; qos = 1 }

-- The broker takes every publication.
abbrev pub IsUp : World → Type 0
IsUp w = (n : ℕ) → w.broker n ≡ true

publish_commands-outbox :
    (d : Device) (cs : List CommandLog) (w : World)
    → IsUp w
    → (publish_commands d cs w).outbox ≡ w.outbox ++ map (message_of d) cs
unfolding publish_commands send_command mqtt_publish
publish_commands-outbox d [] w up = sym (append-nil w.outbox)
publish_commands-outbox d (c ∷ cs) w up =
    if_cases
      (λ (o : Bool × World).
        (publish_commands d cs o.1).outbox ≡ w.outbox ++ message_of d c ∷ map (message_of d) cs)
      (w.broker w.attempts)
      (λ _.
        publish_commands-outbox d cs _ up
        ∙ append_assoc w.outbox (message_of d c ∷ []) (map (message_of d) cs))
      (λ lost. ground (arith, up w.attempts))

-- The times do not fall along the list.
abbrev pub Ordered : List CommandLog → Type 0
Ordered [] = Unit
Ordered (c ∷ cs) = All (λ e. c.sent_at ≤ e.sent_at) cs × Ordered cs

insert_by_sent_at-Perm :
    (c : CommandLog) (cs : List CommandLog) → Perm (insert_by_sent_at c cs) (c ∷ cs)
unfolding insert_by_sent_at
insert_by_sent_at-Perm c [] = Perm.rfl
insert_by_sent_at-Perm c (e ∷ es) =
    if_cases (λ (l : List CommandLog). Perm l (c ∷ e ∷ es)) (leb c.sent_at e.sent_at)
      (λ _. Perm.rfl)
      (λ _. Perm.trans (Perm.cons e (insert_by_sent_at-Perm c es)) (Perm.swap c e es))

order_by_sent_at-Perm : (cs : List CommandLog) → Perm (order_by_sent_at cs) cs
unfolding order_by_sent_at
order_by_sent_at-Perm [] = Perm.rfl
order_by_sent_at-Perm (c ∷ cs) =
    Perm.trans (insert_by_sent_at-Perm c (order_by_sent_at cs))
      (Perm.cons c (order_by_sent_at-Perm cs))

All-weaken :
    (a b : ℕ) (cs : List CommandLog)
    → a ≤ b
    → All (λ e. b ≤ e.sent_at) cs
    → All (λ e. a ≤ e.sent_at) cs
All-weaken a b [] h k = tt
All-weaken a b (c ∷ cs) h k = (omega (arith, k.0), All-weaken a b cs h k.1)

insert_by_sent_at-All :
    (a : ℕ) (c : CommandLog) (cs : List CommandLog)
    → a ≤ c.sent_at
    → All (λ e. a ≤ e.sent_at) cs
    → All (λ e. a ≤ e.sent_at) (insert_by_sent_at c cs)
unfolding insert_by_sent_at
insert_by_sent_at-All a c [] h k = (h, tt)
insert_by_sent_at-All a c (e ∷ es) h k =
    if_cases (λ (l : List CommandLog). All (λ (x : CommandLog). a ≤ x.sent_at) l)
      (leb c.sent_at e.sent_at) (λ _. (h, k)) (λ _. (k.0, insert_by_sent_at-All a c es h k.1))

insert_by_sent_at-Ordered :
    (c : CommandLog) (cs : List CommandLog) → Ordered cs → Ordered (insert_by_sent_at c cs)
unfolding insert_by_sent_at
insert_by_sent_at-Ordered c [] h = (tt, tt)
insert_by_sent_at-Ordered c (e ∷ es) h =
    if_cases Ordered (leb c.sent_at e.sent_at)
      (λ le. ((leb→le _ _ le, All-weaken c.sent_at e.sent_at es (leb→le _ _ le) h.0), h))
      (λ gt. (
        insert_by_sent_at-All e.sent_at c es (ground arith) h.0,
        insert_by_sent_at-Ordered c es h.1,
      ))

order_by_sent_at-Ordered : (cs : List CommandLog) → Ordered (order_by_sent_at cs)
unfolding order_by_sent_at
order_by_sent_at-Ordered [] = tt
order_by_sent_at-Ordered (c ∷ cs) =
    insert_by_sent_at-Ordered c (order_by_sent_at cs) (order_by_sent_at-Ordered cs)

-- `v` is `w` after the commands that the test selects went out, the oldest first.
pub record IsFlushed (d : Device) (test : CommandLog → Bool) (w v : World) : Type 0 where
  pub order : List CommandLog
  pub complete : Perm order (select test w.commands)
  pub ordered : Ordered order
  pub sent : v.outbox ≡ w.outbox ++ map (message_of d) order

-- A command that the device has not taken: of this device, without acknowledgement, and with an
-- action that is no OTA update.
abbrev pub is_waiting : Device → CommandLog → Bool
is_waiting d c = (c.device == d.device_id) && not c.acked && (elim (command_action c.command) [
  | none ↦ false
  | some v ↦ not (json_eq v (Json.str "ota_update"))
])

-- While the broker takes publications, a flush sends each command of the device that is not
-- acknowledged and has an action other than an OTA update, and no other command, so none that has no
-- action; each goes out once, to the device's
-- command topic, in the order of the times at which the commands were created.
pub flush_pending_commands-IsFlushed :
    (d : Device) (w : World) → IsUp w → IsFlushed d (is_waiting d) w (flush_pending_commands d w)
unfolding flush_pending_commands awaits_flush is_not_excluded
flush_pending_commands-IsFlushed d w up =
    let waiting = select (is_waiting d) w.commands in
    record {
      order = order_by_sent_at waiting;
      complete = order_by_sent_at-Perm waiting;
      ordered = order_by_sent_at-Ordered waiting;
      sent = publish_commands-outbox d (order_by_sent_at waiting) w up;
    }

-- Marking what a test selects leaves nothing that it selects, if it selects only pending rows and
-- the mark is final.
update_where-mark :
    (test : CommandLog → Bool) (status : Status) (message : String) (now : ℕ)
    → is_terminal status ≡ true
    → ((c : CommandLog) → is_pending c.status ≡ false → test c ≡ false)
    → (cs : List CommandLog)
    → All (λ c. test c ≡ false) (update_where test (mark status message now) cs)
unfolding update_where mark
update_where-mark test status message now terminal needs [] = tt
update_where-mark test status message now terminal needs (c ∷ cs) = (
  if_cases (λ (e : CommandLog). test e ≡ false) (test c) (λ _. needs _ (settled status terminal))
      (λ miss. miss),
  update_where-mark test status message now terminal needs cs,
)
  where
    settled : (s : Status) → is_terminal s ≡ true → is_pending s ≡ false
    settled Status.pending h = cc
    settled Status.success h = refl
    settled Status.failed h = refl
    settled Status.timeout h = refl

needs_pending :
    (device : String) (action : Json) (extra : CommandLog → Bool) (c : CommandLog)
    → is_pending c.status ≡ false
    → (pending_with device action c && extra c) ≡ false
unfolding pending_with
needs_pending device action extra c h = ground arith

needs_pending_one :
    (device : String) (action : Json) (c : CommandLog)
    → is_pending c.status ≡ false
    → pending_with device action c ≡ false
unfolding pending_with
needs_pending_one device action c h = ground arith

-- Once the OTA commands have been compared with the reported firmware, no OTA update to that very
-- version is pending for the device.
pub resolve_ota_updates_complete :
    (now : ℕ) (d : Device) (w : World)
    → All
        (λ c. (pending_with d.device_id (Json.str "ota_update") c && runs_target d c) ≡ false)
        (resolve_ota_updates now d w).commands
unfolding resolve_ota_updates
resolve_ota_updates_complete now d w =
    update_where-mark _ success (concat "Running " d.fw_version) now refl
      (needs_pending d.device_id (Json.str "ota_update") (runs_target d)) w.commands

-- Behind the timeout check no OTA update of the device that is older than its timeout is pending;
-- the timeout is ten minutes, or three publish intervals where that is more.
pub check_ota_timeouts_complete :
    (now : ℕ) (d : Device) (w : World)
    → All
        (λ c.
          (pending_with d.device_id (Json.str "ota_update") c
            && ltb (c.sent_at + ota_timeout d * second) now)
          ≡ false)
        (check_ota_timeouts now d w).commands
unfolding check_ota_timeouts
check_ota_timeouts_complete now d w =
    update_where-mark _ timeout
      (concat "No confirmation within " (concat (show (ota_timeout d)) "s")) now refl
      (needs_pending d.device_id (Json.str "ota_update")
        (λ c. ltb (c.sent_at + ota_timeout d * second) now))
      w.commands

pub resolve_capability_requests_complete :
    (d : Device) (status : Status) (message : String) (when : ℕ) (w : World)
    → is_terminal status ≡ true
    → All
        (λ c. pending_with d.device_id (Json.str "request_capabilities") c ≡ false)
        (resolve_capability_requests d status message when w).commands
unfolding resolve_capability_requests
resolve_capability_requests_complete d status message when w terminal =
    update_where-mark _ status message when terminal
      (needs_pending_one d.device_id (Json.str "request_capabilities")) w.commands
