-- ===== src/Mappings.antt =====
-- The port mappings of Beds (internal/bed/network/port_mappings.go), on top of the port manager.
mod State
mod Operation
mod Release
mod Follows
mod Composed
mod Keeps
mod Stopped
mod Tests
