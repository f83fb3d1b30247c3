-- ===== src/Tests.antt =====
-- Sample states, and each theorem at a concrete input.
mod Samples
mod Registry
mod Serializers
mod Queue
mod Routing
mod Context
mod Preloader
mod Capacity
mod Optimizer
mod Alert
mod Env
mod Ranking
