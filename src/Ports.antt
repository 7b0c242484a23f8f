-- ===== src/Ports.antt =====
-- The daemon-wide allocation of TCP ports (internal/host/network/ports.go).
pub mod State
pub mod Reserve
pub mod Operation
mod Candidates
mod Exclusive
pub mod Invariant
pub mod Safety
pub mod Ownership
mod Atomic
mod Tests
