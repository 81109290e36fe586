-- ===== src/System.antt =====
-- The server at work: messages from the broker and calls of the views of web/devices/views.py that
-- change a device, in any order.
-- Each is handled at once, as the worker and the web server do behind their database.
pub mod Examples
use sensor_server.Prelude.{
  ℕ, String, ◌≡◌, refl, ◌∙◌, ap, ◌≢◌, ◌⊎◌, inl, inr, Bool, false, Option, List, [], ◌∷◌, All,
  select, ◌==◌,
}
use sensor_server.Value.{Python}
use sensor_server.World.{World, SensorReading, find_device}
use sensor_server.Mqtt.Worker.{Delivery, serve}
use sensor_server.Mqtt.Effects.Devices.{approval}
use sensor_server.Mqtt.Effects.Keys.{IsKeyed}
use sensor_server.Mqtt.Effects.Frame.{SameFor}
use sensor_server.Mqtt.Service.{
  Waiting, Waiting-step, serve-IsKeyed, serve-approval, serve-unapproved,
}
use sensor_server.Devices.Console.{Console}
use sensor_server.Devices.Admin.{Shelf, Action, administer}
use sensor_server.Devices.Actions.{IsCommand, administer-Effects}
use sensor_server.Devices.Others.{Spares, administer-SameFor}
use sensor_server.Devices.Keyed.{administer-IsKeyed}

-- A request of an administrator: its time, the user, the method, the device, and the view.
pub record Click : Type 0 where
  pub time : ℕ
  pub by : Option ℕ
  pub method : String
  pub device_id : String
  pub action : Action

pub data Step : Type 0 where
  message : Delivery → Step
  click : Click → Step

unfoldable pub advance : Python → Console → Shelf → Step → World → World
unfolding serve administer
advance py env shelf (message m) w = serve py (m ∷ []) w
advance py env shelf (click c) w =
    (administer env shelf c.time c.by c.method c.device_id c.action w).1

unfoldable pub work : Python → Console → Shelf → List Step → World → World
unfolding advance
work py env shelf [] w = w
work py env shelf (s ∷ ss) w = work py env shelf ss (advance py env shelf s w)

-- A step that leaves the approval and the rows of the device `j` to its messages: a message, an action
-- that neither approves, renames nor deletes, or any action on another device, unless that is renamed
-- to `j` or merged into it.
abbrev pub IsRoutine : Console → String → Step → Type 0
IsRoutine env j (message m) = Unit
IsRoutine env j (click c) = IsCommand c.action ⊎ ((j ≢ c.device_id) × Spares env c.action j)

-- The invariant: a keyed log, and a device that waits for its approval.
record Holds (j : String) (w v : World) : Type 0 where
  keyed : IsKeyed v
  waiting : Waiting j w v

SameFor-Waiting : (j : String) (w u v : World) → SameFor j u v → Waiting j w u → Waiting j w v
SameFor-Waiting j w u v s h = record {
  unapproved = ap (λ o. approval o) s.device ∙ h.unapproved;
  kept = s.readings ∙ h.kept;
}

click-Waiting :
    (env : Console) (shelf : Shelf) (c : Click) (j : String) (w v : World)
    → IsRoutine env j (click c)
    → Waiting j w v
    → Waiting j w (administer env shelf c.time c.by c.method c.device_id c.action v).1
unfolding administer
click-Waiting env shelf c j w v (inl command) h =
    Waiting-step j
      (administer-Effects env shelf c.time c.by c.method c.device_id c.action v
        (find_device c.device_id v.devices) refl command)
      h
click-Waiting env shelf c j w v (inr (ne, spared)) h =
    SameFor-Waiting j w v _
      (administer-SameFor env shelf c.time c.by c.method c.device_id c.action v j ne spared) h

advance-Holds :
    (py : Python) (env : Console) (shelf : Shelf) (s : Step) (j : String) (w v : World)
    → IsRoutine env j s
    → Holds j w v
    → Holds j w (advance py env shelf s v)
unfolding advance
advance-Holds py env shelf (message m) j w v r h = record {
  keyed = serve-IsKeyed py (m ∷ []) v h.keyed;
  waiting = record {
    unapproved = serve-approval py j (m ∷ []) v h.keyed ∙ h.waiting.unapproved;
    kept = serve-unapproved py j (m ∷ []) v h.keyed h.waiting.unapproved ∙ h.waiting.kept;
  };
}
advance-Holds py env shelf (click c) j w v r h = record {
  keyed = administer-IsKeyed env shelf c.time c.by c.method c.device_id c.action v h.keyed;
  waiting = click-Waiting env shelf c j w v r h.waiting;
}

work-Holds :
    (py : Python) (env : Console) (shelf : Shelf) (ss : List Step) (j : String) (w v : World)
    → All (IsRoutine env j) ss
    → Holds j w v
    → Holds j w (work py env shelf ss v)
unfolding work
work-Holds py env shelf [] j w v r h = h
work-Holds py env shelf (s ∷ ss) j w v r h =
    work-Holds py env shelf ss j w _ r.1 (advance-Holds py env shelf s j w v r.0 h)

-- From a state with a keyed command log in which a device is unapproved or unknown: messages and calls
-- of the views of web/devices/views.py that change a device, in any order, store no reading of the device and do not approve it, as
-- long as no administrator approves, renames or deletes the device itself or one of its commands, or
-- renames or merges another device to its id. What is done to other devices is not restricted
-- otherwise.
pub work-unapproved :
    (py : Python) (env : Console) (shelf : Shelf) (ss : List Step) (j : String) (w : World)
    → IsKeyed w
    → approval (find_device j w.devices) ≡ false
    → All (IsRoutine env j) ss
    → (approval (find_device j (work py env shelf ss w).devices) ≡ false)
      × (select (λ s. s.device_id == j) (work py env shelf ss w).readings
          ≡ select (λ (s : SensorReading). s.device_id == j) w.readings)
work-unapproved py env shelf ss j w keyed h routine =
    let done =
      work-Holds py env shelf ss j w w routine
        (record { keyed = keyed; waiting = record { unapproved = h; kept = refl } }) in
    (done.waiting.unapproved, done.waiting.kept)
