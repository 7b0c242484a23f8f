-- ===== src/Users.antt =====
-- The Unix users of the Beds (internal/bed/privilege).
mod Allocator
mod Probing
mod OneToOne
mod Assignment
mod Exhaustion
mod Tests
