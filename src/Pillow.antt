-- ===== src/Pillow.antt =====
-- Supervision and readiness of a Bed's long-running processes (internal/bed/pillow).
mod Supervision
mod Budget
mod Hysteresis
mod Tests
