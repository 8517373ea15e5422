-- ===== src/Center.antt =====
-- The center's side of the protocol with the agents (xrayr-center/internal).
pub mod Sign
pub mod Nonces
pub mod Auth
pub mod Hub
pub mod Commands
pub mod Register
