-- ===== src/Api/Examples.antt =====
-- The theorems about the API at sample data.
use sensor_server.Prelude.{String, true, none, some, List, [], ◌∷◌, pos}
use sensor_server.Value.{Dict, finite}
use sensor_server.World.{SensorReading}
use sensor_server.Mqtt.Examples.Parts.{sample_device}
use sensor_server.Text.{by_codes}
use sensor_server.Api.Keys.{ApiKey, Hashing, api_key_required}
use sensor_server.Api.Range.{Reader, unreadable}
use sensor_server.Api.Views.{Source}
use sensor_server.Api.Guarded.{IsGuarded, api_key_required-IsGuarded}

abbrev two_rows : List SensorReading
two_rows =
    record {
      time = 900000000000;
      device_id = "d1";
      metric = "temperature";
      value = finite (pos 22) 0;
    }
    ∷ record {
      time = 800000000000;
      device_id = "d1";
      metric = "humidity";
      value = finite (pos 40) 0;
    }
    ∷ []

abbrev pub sample_source : Source
sample_source = record {
  devices = sample_device ∷ [];
  readings = two_rows;
  hourly = [];
  daily = [];
  text_le = by_codes;
}

abbrev pub sample_reader : Reader
sample_reader = record {
  parse_datetime = λ text. unreadable;
  make_aware = λ n. n;
  parse_int = λ text. some (pos 1);
}

abbrev sample_query : Dict String
sample_query = ("limit", "1") ∷ []

abbrev sample_hashing : Hashing
sample_hashing = record { hash_token = λ token. token; strip = λ text. text }

abbrev one_key : List ApiKey
one_key =
    record {
      pk = 3;
      name = "grafana";
      prefix = "sk_abc";
      key_hash = "sk_abcdef";
      is_active = true;
      last_used_at = none;
    }
    ∷ []

api_key_required-IsGuarded_example :
    IsGuarded sample_hashing 77 "Bearer sk_abcdef" true one_key
      (api_key_required sample_hashing 77 "Bearer sk_abcdef" true one_key)
api_key_required-IsGuarded_example =
    api_key_required-IsGuarded sample_hashing 77 "Bearer sk_abcdef" true one_key
