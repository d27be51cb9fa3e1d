-- ===== src/Tests.antt =====
-- Runs of the model, and the theorems at concrete data.
mod Data
mod Updates
mod Relay
mod Restart
mod Gate
mod Library
mod Flight
mod Hook
mod Books
mod Commands
mod Scoped
mod Settings
