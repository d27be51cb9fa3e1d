-- ===== src/Engine.antt =====
-- internal/engine/engine.go: the update cycle.
pub mod Host
pub mod View
pub mod Network
pub mod Scope
pub mod Start
pub mod Plan
pub mod Gate
pub mod Apply
pub mod Cycle
pub mod Daemon
