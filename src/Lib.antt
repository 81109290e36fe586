-- ===== src/Lib.antt =====
-- A model of the sensor server: the Django program under web/ that takes MQTT messages of sensors,
-- keeps devices, commands, logs and readings in a database, and sends commands back.
--
-- The parts and their files:
-- - Text, Text/Splitting: Python's string operations and the regular expressions that the program
--   uses; splitting a topic.
-- - Value: JSON values, floats (decimal, infinite or nan) and dictionaries. `Python` is the interface
--   to the platform: `loads` decodes JSON, `parse_float` reads a float from a text; both are
--   parameters of every definition that uses them.
-- - Store: web/devices/models.py (the columns of Device and its properties). World: the tables of
--   web/devices/models.py and web/readings/models.py, the broker and the channel layer. World/Tables:
--   lemmas on the tables. A publication may fail: `broker n` says if the n-th attempt is taken.
-- - Mqtt: web/mqtt_bridge/services.py. Topic is `parse_topic`; Requests holds the helpers above the
--   handlers (requests, polls, repush, flush, resolution and timeouts of commands); Payload is the
--   opening of the handlers; Alert is the change of an alert with its log and event; Sensor,
--   HealthStatus, Capabilities, CommandList, Calibration, Diag and Ack are the seven handlers, one
--   function for each step, composed in the order of the source; Worker is `_on_message` of
--   web/mqtt_bridge/management/commands/mqtt_worker.py, and `serve` runs it over a list of messages.
-- - Mqtt/Effects: the writes that a message for one device may make, as an indexed relation, with what
--   holds of every write (Frame, Lifecycle, Devices, Records, Keys). Mqtt/Confined: each handler stays
--   inside these writes. Mqtt/Service: what follows for `serve`.
-- - Mqtt/Addressing, Rejection, Readings, Queue, Acknowledgement, Alerts, Reports, Polling,
--   Mirror and Diag/Snapshot: theorems about single operations. Mqtt/Examples: sample data.
-- - Ota: web/ota/models.py (Catalog), web/ota/services.py (Push), web/ota/views.py and web/ota/auth.py
--   (Publish, and Listing for what only reads), with the theorems in Push, Uniqueness and Url.
-- - Devices: web/devices/views.py. Rename holds `device_rename_view`, `_rename_device` and
--   `_merge_devices`, with theorems in Renamed and Merged. Console holds the views that send a command
--   to one device; Admin the other views that change one, and `administer`, which runs any of them
--   behind its lookup as web/devices/urls.py names them. Administered and Actions show that a command
--   or an edit stays inside the writes of Mqtt/Effects; Others and Keyed are about all views. Neighbours is
--   `_prev_next_device`, with its theorem in Cycle; Pages are the pages that only read, Labels is
--   web/devices/templatetags/device_tags.py.
-- - Accounts: web/accounts. Role is models.py, Users the decisions of decorators.py, middleware.py and
--   context_processors.py, Requests the views of views.py, Oidc the login backend of backends.py;
--   Service runs sequences of these as requests, Privilege is about them.
-- - Api: web/api. Keys is auth.py and models.py; Range, Page and Views are views.py; Paging, Served
--   and Guarded hold the theorems. World/Order is ORDER BY, with its laws.
-- - Readings: web/readings/views.py and web/readings/metrics.py. Window is the window of a request,
--   Timeline `status_timeline_view`, Charts the two chart APIs, Deletion `delete_readings_view`,
--   Dashboard and Overview the two pages, Metrics the registry of metrics; Alerts and Guests hold the
--   theorems on the timeline and on what guests are shown.
-- - System: messages and calls of the views of web/devices/views.py that change a device, in any order,
--   one at a time; the deletion of readings (Readings/Deletion) is not among them.
--
-- How code corresponds: a device in memory beside the database is a `Run`; `device.save(update_fields)`
-- copies the listed fields to the row; times are in microseconds; an exception that the worker logs is
-- the outcome `raised`, and what was written before it stays. JSON objects keep their order. The only
-- fuel is in `show`, which prints a number n with n + 1 steps, and n has no more digits than that:
-- Ota/Url reads it back.
-- What Python, Django and PostgreSQL do with texts is a parameter, gathered in records: `Platform` for
-- uploads, `Console` for forms, `Reader` for queries, `Hashing` for keys, `Directory` for claims; the
-- collation of the database is `text_le`. Rows that ORDER BY does not separate keep the order of the
-- table, where the database leaves it open.
--
-- Not modelled: log lines, the connection loop of the worker, passwords and sessions, the user list, the catalog pages, templates, the continuous aggregates, which are tables
-- that the charts read, `created_at` columns, printed times. The database refuses a row
-- only where `is_refused`, `is_smallint`, `fits` and `is_too_long` compare a column with its size; a new id of a
-- rename that is wider than its column is not among these. A keyed command log (`IsKeyed`) has
-- growing primary keys, all below the next one, as the database gives them.
pub mod Prelude
pub mod Text
pub mod Value
pub mod Store
pub mod World
pub mod Mqtt
pub mod Ota
pub mod Devices
pub mod Accounts
pub mod Api
pub mod Readings
pub mod System
