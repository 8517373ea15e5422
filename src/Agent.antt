-- ===== src/Agent.antt =====
-- The agent's execution of commands (xrayr-agent/internal/cmdexec), its settings, and the messages
-- that it sends to the center.
pub mod Os
pub mod Commands
pub mod Apply
pub mod Install
pub mod Refusals
pub mod Tests
