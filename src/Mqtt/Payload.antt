-- ===== src/Mqtt/Payload.antt =====
-- The opening that the handlers of web/mqtt_bridge/services.py share: the size limit, the JSON
-- object, and the known device.
use sensor_server.Prelude.{ℕ, String, Option, none, some, List, ltb, length, if◌then◌else◌}
use sensor_server.Value.{Json, Dict, entries, Python, Loaded, loaded, malformed, too_deep}
use sensor_server.Store.{Device}
use sensor_server.World.{World, Run, find_device}

-- MAX_PAYLOAD_SIZE
abbrev pub max_payload_size : ℕ
max_payload_size = 10240

-- The reasons that the log lines give.
pub data Reason : Type 0 where
  payload_too_large invalid_json not_an_object unknown_device invalid_level not_approved : Reason
  invalid_format no_matching_command bad_topic unknown_message_type : Reason

-- How a handler ends; `raised` stands for an exception that the worker logs.
pub data Outcome : Type 0 where
  handled : Outcome
  rejected : Reason → Outcome
  raised : Outcome

pub data Decoded : Type 0 where
  decoded : Dict Json → Decoded
  refused : Outcome → Decoded

abbrev object_of : Json → Decoded
object_of (Json.dict fs) = decoded (entries fs)
object_of _ = refused (rejected not_an_object)

abbrev parsed : Loaded → Decoded
parsed (loaded v) = object_of v
parsed malformed = refused (rejected invalid_json)
parsed too_deep = refused raised

unfoldable pub decode : Python → List ℕ → Decoded
unfolding entries
decode py payload =
    if ltb max_payload_size (length payload)
    then refused (rejected payload_too_large)
    else parsed (py.loads payload)

abbrev pub Handler : Type 0
Handler = Python → ℕ → String → String → List ℕ → World → Outcome × World

abbrev pub with_row :
    Dict Json → (Dict Json → Run → Outcome × World) → World → Option Device → Outcome × World
with_row fields body w none = (rejected unknown_device, w)
with_row fields body w (some d) = body fields (record { device = d; world = w })

-- Device.objects.get(device_id=...), and the rest of a handler that needs it.
unfoldable pub with_device :
    Decoded → String → (Dict Json → Run → Outcome × World) → World → Outcome × World
unfolding find_device
with_device (refused o) device_id body w = (o, w)
with_device (decoded fields) device_id body w =
    with_row fields body w (find_device device_id w.devices)
