-- ===== src/Center/Commands.antt =====
-- The queue of commands: httpapi/handlers_phase2.go with the tables command_task and node.
pub mod Rows
pub mod Queue
pub mod Reports
pub mod Deploys
pub mod Permissions
pub mod Exclusion
pub mod Pushes
pub mod Flush
pub mod Steps
pub mod Crossing
pub mod Races
pub mod Tests
