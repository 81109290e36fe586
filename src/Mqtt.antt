-- ===== src/Mqtt.antt =====
-- The MQTT bridge: web/mqtt_bridge/services.py, a module for each handler, and the dispatch of
-- web/mqtt_bridge/management/commands/mqtt_worker.py.
pub mod Topic
pub mod Requests
pub mod Payload
pub mod Alert
pub mod Sensor
pub mod HealthStatus
pub mod Capabilities
pub mod CommandList
pub mod Calibration
pub mod Diag
pub mod Ack
pub mod Worker
pub mod Effects
pub mod Confined
pub mod Service
pub mod Expiry
pub mod Addressing
pub mod Queue
pub mod Polling
pub mod Mirror
pub mod Acknowledgement
pub mod Rejection
pub mod Readings
pub mod Alerts
pub mod Reports
pub mod Examples
