-- ===== src/Command.antt =====
-- internal/command: the commands of the program.
pub mod AddPeer
pub mod Install
pub mod Progress
pub mod Doctor
pub mod Status
pub mod Models
