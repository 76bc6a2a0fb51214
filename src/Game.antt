-- ===== src/Game.antt =====
-- The package internal/game: the rules of a round.
pub mod Board
pub mod Types
pub mod Rules
pub mod Setup
pub mod Engine
pub mod Bombs
pub mod Invariant
pub mod Round
mod Tests
