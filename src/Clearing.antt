-- ===== src/Clearing.antt =====
-- Clearing of old tool results: src/fleet_manager/server/context_management.py and
-- src/fleet_manager/server/clearing_store.py.
pub mod Messages
pub mod Sticky
pub mod Store
pub mod Cut
pub mod Blank
pub mod Same
pub mod Distinct
pub mod Stable
pub mod Turns
pub mod Retention
pub mod Kept
