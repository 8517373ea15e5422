-- ===== src/Panel/Sspanel.antt =====
-- The client of SSPanel: api/sspanel/sspanel.go.
pub mod Versions
pub mod Users
pub mod Readers
pub mod Nodes
pub mod Requests
pub mod Tags
pub mod RoundTrip
mod Tests
