-- ===== src/Admission.antt =====
-- The carrier's resource admission (internal/bed/resource).
mod Window
mod Sampler
mod Watermarks
mod Tests
