-- ===== src/Loop.antt =====
-- The package internal/game/loop.
pub mod Ticker
