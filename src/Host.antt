-- ===== src/Host.antt =====
-- The package internal/host: the limits on what a client of the SSH server sends.
pub mod Budget
pub mod Input
pub mod Pastes
pub mod Reads
pub mod Requests
pub mod Filter
pub mod Wire
pub mod Key
pub mod Settings
pub mod Terminal
pub mod Connections
mod Tests
