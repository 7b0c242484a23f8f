-- ===== src/Execution.antt =====
-- One-shot executions and their registry (internal/bed/manager/execution.go, execution_log.go).
mod State
mod Output
mod Eviction
mod Refine
mod Pages
mod Terminal
mod Ending
mod Causes
mod Registry
mod Tally
mod Retention
mod Protected
mod Tests
