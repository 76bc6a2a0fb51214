-- ===== src/Room.antt =====
-- The package internal/room: rooms and the actor that owns each of them.
pub mod Types
pub mod Names
pub mod Rules
pub mod Actor
pub mod Seats
pub mod Invariant
pub mod Run
pub mod Channels
pub mod Hub
mod Tests
