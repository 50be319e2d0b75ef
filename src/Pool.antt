-- ===== src/Pool.antt =====
-- server/internal/pool: the scheduler that lends accounts to requests.
pub mod Slots
pub mod Bounded
pub mod State
pub mod View
pub mod Limits
pub mod Scan
pub mod Select
pub mod Snapshot
pub mod System
pub mod Refresh
pub mod Acquire
