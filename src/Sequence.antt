-- ===== src/Sequence.antt =====
-- The lifecycle hooks of a Bed (internal/bed/lifecycle.go).
mod Run
mod Progress
mod Tests
