-- ===== src/Manager.antt =====
-- internal/bed/manager: the Beds of one daemon, their admitted operations and their eviction.
pub mod State
pub mod Operation
pub mod Retention
pub mod Eviction
pub mod Persist
pub mod Identity
pub mod Pressure
pub mod Counts
pub mod World
pub mod Accounting
pub mod Membership
pub mod Effects
pub mod Invariant
pub mod Safety
pub mod Fences
pub mod Retained
pub mod Inflight
mod Tests
