-- ===== src/WorldState.antt =====
-- src/reality_layer/world_state/: observations, the states compiled from them, commits, conflicts.
pub mod Models
pub mod Service
pub mod Persistence
