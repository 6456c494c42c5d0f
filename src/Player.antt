-- ===== src/Player.antt =====
-- The package internal/game/player.
pub mod Trangthai
pub mod Service
