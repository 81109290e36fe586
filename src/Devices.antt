-- ===== src/Devices.antt =====
-- The administration of devices in web/devices/views.py.
pub mod Rename
pub mod Renamed
pub mod Merged
pub mod Console
pub mod Admin
pub mod Administered
pub mod Actions
pub mod Others
pub mod Neighbours
pub mod Cycle
pub mod Keyed
pub mod Labels
pub mod Pages
pub mod Examples
