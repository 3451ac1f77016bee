-- ===== src/Tests.antt =====
-- The theorems of the library at concrete inputs.
pub mod Engine
pub mod Tunnel
pub mod Files
pub mod Keys
pub mod Downloads
pub mod Commands
pub mod Peers
pub mod Models
pub mod Addresses
pub mod Plans
