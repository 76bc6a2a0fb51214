-- ===== src/Ui.antt =====
-- The package internal/ui: the terminal interface of one session.
pub mod Model
pub mod Invariant
pub mod Board
pub mod Render
pub mod Lobby
pub mod Cells
pub mod Height
pub mod Screen
pub mod Texts
pub mod Lines
mod Tests
