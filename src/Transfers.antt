-- ===== src/Transfers.antt =====
-- File transfers between a Bed and the object store (internal/bed/store/transfer.go).
mod State
mod Registry
mod Room
mod Bounds
mod Retry
mod Tests
