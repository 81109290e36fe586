-- ===== src/Readings.antt =====
-- The pages of web/readings: the window of a request, the timeline of a device's alerts, the charts
-- and the deletion of readings.
pub mod Metrics
pub mod Window
pub mod Timeline
pub mod Alerts
pub mod Charts
pub mod Deletion
pub mod Dashboard
pub mod Overview
pub mod Guests
pub mod Examples
