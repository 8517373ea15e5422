-- ===== src/Panel.antt =====
-- The clients of the panels (api): what a node asks of its panel, and what it makes of the answers.
pub mod Common
pub mod Sspanel
