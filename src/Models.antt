-- ===== src/Models.antt =====
-- The data models of src/fleet_manager/models: JSON values, node state, requests and settings.
pub mod Json
pub mod Metrics
pub mod Node
pub mod Request
pub mod Settings
