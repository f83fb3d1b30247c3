-- ===== src/Models/Settings.antt =====
-- The settings that the modelled code reads (src/fleet_manager/models/config.py, `ServerSettings`).
-- Durations are in the ticks of the clock; scores stand in Scorer.
use ollama_herd.Common.{ℕ}

pub record ServerSettings : Type 0 where
  pub heartbeat_timeout : ℕ
  pub heartbeat_offline : ℕ
  pub stale_timeout : ℕ
  pub client_max_in_flight : ℕ
  pub client_concurrency_retry_after : ℕ
  pub rebalance_threshold : ℕ
  pub rebalance_max_per_cycle : ℕ
  pub pre_warm_threshold : ℕ
