-- ===== src/State.antt =====
-- internal/game/state: the players of each map, in memory.
pub mod PlayerState
pub mod MapState
pub mod Manager
