-- ===== src/Volumes.antt =====
-- Declared volumes and attained rooms of Beds (internal/bed/volumes.go, paths.go, room.go).
mod Declaration
mod Mounts
mod Normal
mod Tests
