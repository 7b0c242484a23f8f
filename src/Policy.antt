-- ===== src/Policy.antt =====
-- The egress policies of private networks (internal/host/network/policy.go).
mod Rules
mod Control
mod Verdict
mod WellFormed
mod Tests
