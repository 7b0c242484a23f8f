-- ===== src/Store.antt =====
-- Snapshots of Beds in the object store (internal/bed/store/sync).
mod Layout
mod Auto
mod Collect
mod Selection
mod Persist
mod Tests
