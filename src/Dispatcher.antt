-- ===== src/Dispatcher.antt =====
-- The dispatcher: app/mydispatcher. It admits a connection, sniffs where it wants to go, checks the
-- rules and hands it to an outbound.
pub mod Types
pub mod Reader
pub mod Sniffer
pub mod Links
pub mod Routes
pub mod Dispatches
mod Tests
