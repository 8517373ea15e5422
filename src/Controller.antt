-- ===== src/Controller.antt =====
-- service/controller: one node of a panel. The controller keeps what the panel said last, and turns
-- changes into calls of Xray's managers, of the limiter and of the rule manager.
pub mod Compare
pub mod Types
pub mod Users
pub mod Node
pub mod Monitor
pub mod Traffic
