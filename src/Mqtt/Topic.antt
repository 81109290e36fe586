-- ===== src/Mqtt/Topic.antt =====
-- `_is_safe_identifier` and `parse_topic` of web/mqtt_bridge/services.py.
use sensor_server.Prelude.{
  String, Bool, ◌&&◌, Option, none, some, List, [], ◌∷◌, leb, if◌then◌else◌,
}
use sensor_server.Text.{len, split, safe_identifier_re}

-- _is_safe_identifier
unfoldable pub is_safe_identifier : String → Bool
unfolding safe_identifier_re
is_safe_identifier value = safe_identifier_re value && leb (len value) 128

pub record Topic : Type 0 where
  pub device_type : String
  pub device_id : String
  pub msg_type : String

unfoldable pub topic_of_parts : List String → Option Topic
unfolding is_safe_identifier
topic_of_parts (device_type ∷ device_id ∷ msg_type ∷ []) =
    if is_safe_identifier device_type && is_safe_identifier device_id
    then some (record { device_type = device_type; device_id = device_id; msg_type = msg_type })
    else none
topic_of_parts _ = none

-- parse_topic
unfoldable pub parse_topic : String → Option Topic
unfolding topic_of_parts split
parse_topic topic = topic_of_parts (split b'/' topic)
