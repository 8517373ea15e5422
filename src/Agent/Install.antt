-- ===== src/Agent/Install.antt =====
-- RunInstallXrayR and RunUpgradeXrayR of xrayr-agent/internal/cmdexec/xrayr_install_upgrade.go.
pub mod Host
pub mod Tasks
pub mod Checks
pub mod Files
pub mod Run
pub mod Keeps
pub mod Writes
pub mod Frame
pub mod Untouched
pub mod Turns
pub mod Undo
pub mod Stages
pub mod Reports
pub mod Tests
