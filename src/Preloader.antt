-- ===== src/Preloader.antt =====
-- Keeping the right models in memory: src/fleet_manager/server/model_preloader.py.
pub mod Catalog
pub mod Sizing
pub mod Evidence
pub mod Load
pub mod Wait
pub mod Plan
pub mod Rounding
pub mod Budget
pub mod Failures
pub mod Choice
