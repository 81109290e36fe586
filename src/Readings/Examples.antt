-- ===== src/Readings/Examples.antt =====
-- The theorems about the pages at sample data.
use sensor_server.Prelude.{◌≡◌, some, List, [], ◌∷◌, arith}
use sensor_server.Store.{AlertLevel}
use sensor_server.World.{StatusLog}
use sensor_server.Prelude.{false}
use sensor_server.Accounts.Users.{User, Accounts}
use sensor_server.Mqtt.Examples.Parts.{sample_device}
use sensor_server.Api.Views.{Source}
use sensor_server.Api.Examples.{sample_source}
use sensor_server.Readings.Timeline.{timeline}
use sensor_server.Readings.Alerts.{Joins, alert_at, shown_at, seen, timeline-alert_at}

abbrev two_alerts : List StatusLog
two_alerts =
    record {
      time = 11;
      device = "d1";
      alert_level = AlertLevel.warning;
      alert_message = "low_battery";
    }
    ∷ record { time = 4; device = "d1"; alert_level = AlertLevel.error; alert_message = "sensor" }
    ∷ []

timeline-alert_at_example :
    Joins 10 20 (timeline "d1" 10 20 two_alerts)
    × (shown_at 12 (timeline "d1" 10 20 two_alerts) ≡ some (seen (alert_at "d1" 12 two_alerts)))
timeline-alert_at_example = timeline-alert_at "d1" 10 20 12 two_alerts (omega arith) (omega arith)

abbrev visitor : User
visitor = record {
  pk = 2;
  username = "guest";
  email = "";
  first_name = "";
  last_name = "";
  is_staff = false;
  is_superuser = false;
}

abbrev one_visitor : Accounts
one_visitor = record {
  users = visitor ∷ [];
  profiles = record { user = 2; role = some "guest" } ∷ [];
}

abbrev visible_source : Source
visible_source = record sample_source {
  devices = record sample_device { guest_visible_metrics = "temperature" ∷ [] } ∷ [];
}
