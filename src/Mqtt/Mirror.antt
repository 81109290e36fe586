-- ===== src/Mqtt/Mirror.antt =====
-- The calibration mirror: `_repush_calibration` of web/mqtt_bridge/services.py.
use sensor_server.Prelude.{
  String, ◌≡◌, sym, ◌∙◌, ap, Bool, true, false, [], ◌∷◌, ◌++◌, arith, if◌then◌else◌, if_cases, map,
  select, append-nil, append_assoc,
}
use sensor_server.Value.{Json, Dict, is_number}
use sensor_server.Store.{Device}
use sensor_server.World.{World, Message, mqtt_publish}
use sensor_server.Mqtt.Requests.{
  command_topic, send_command, calibration_command, repush_entries, repush_calibration,
}
use sensor_server.Mqtt.Queue.{IsUp}

abbrev calibration_message : Device → String × Json → Message
calibration_message d e = record {
  topic = command_topic d;
  payload = calibration_command e.0 e.1;
  retain = false;
  qos = 1;
}

abbrev numbers : Dict Json → Dict Json
numbers mirror = select (λ e. is_number e.1) mirror

send_command-IsUp :
    (d : Device) (payload : Json) (w : World) → IsUp w → IsUp (send_command d payload w).1
unfolding send_command mqtt_publish
send_command-IsUp d payload w up =
    if_cases (λ (o : Bool × World). IsUp o.1) (w.broker w.attempts) (λ _. up) (λ _. up)

send_command-outbox :
    (d : Device) (payload : Json) (w : World)
    → IsUp w
    → (send_command d payload w).1.outbox
      ≡ w.outbox
        ++ record { topic = command_topic d; payload = payload; retain = false; qos = 1 } ∷ []
unfolding send_command mqtt_publish
send_command-outbox d payload w up = ground (arith, up w.attempts)

repush_entries-outbox :
    (d : Device) (mirror : Dict Json) (w : World)
    → IsUp w
    → (repush_entries d mirror w).outbox
      ≡ w.outbox ++ map (calibration_message d) (select (λ e. is_number e.1) mirror)
unfolding repush_entries select
repush_entries-outbox d [] w up = sym (append-nil w.outbox)
repush_entries-outbox d ((key, value) ∷ mirror) w up =
    by_test (is_number value) (λ v still. repush_entries-outbox d mirror v still)
  where
    by_test :
        (b : Bool)
        → ((v : World)
            → IsUp v
            → (repush_entries d mirror v).outbox
              ≡ v.outbox ++ map (calibration_message d) (numbers mirror))
        → (repush_entries d mirror
            (if b then (send_command d (calibration_command key value) w).1 else w)).outbox
          ≡ w.outbox
            ++ map
                (calibration_message d)
                (if b then (key, value) ∷ numbers mirror else numbers mirror)
    by_test false rest = rest w up
    by_test true rest =
        rest (send_command d (calibration_command key value) w).1
          (send_command-IsUp d (calibration_command key value) w up)
        ∙ ap (λ out. out ++ map (calibration_message d) (numbers mirror))
            (send_command-outbox d (calibration_command key value) w up)
        ∙ append_assoc w.outbox (calibration_message d (key, value) ∷ [])
            (map (calibration_message d) (numbers mirror))

-- While the broker takes publications, the mirror of a device that reports an empty store is sent
-- back entry by entry, in its order: one command for each numeric entry, and nothing else.
pub repush_calibration-outbox :
    (d : Device) (w : World)
    → IsUp w
    → (repush_calibration d w).outbox
      ≡ w.outbox
        ++ map
            (λ (e : String × Json). record {
              topic = command_topic d;
              payload = calibration_command e.0 e.1;
              retain = false;
              qos = 1;
            })
            (select (λ e. is_number e.1) d.calibration)
unfolding repush_calibration
repush_calibration-outbox d w up = repush_entries-outbox d d.calibration w up
