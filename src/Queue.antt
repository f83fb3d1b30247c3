-- ===== src/Queue.antt =====
-- The queue manager (src/fleet_manager/server/queue_manager.py): one queue for each node and model,
-- workers that hold a slot for the length of a request, the limit on a client's requests, the
-- reaper of stale requests, and the moves of the rebalancer.
pub mod Clients
pub mod Accounting
pub mod Concurrency
pub mod State
pub mod Workers
pub mod Holding
pub mod Limit
pub mod Bound
pub mod Manager
pub mod Reaper
pub mod Keys
pub mod Filing
pub mod Reachable
pub mod Settle
pub mod Moves
