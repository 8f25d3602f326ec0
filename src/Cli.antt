-- ===== src/Cli.antt =====
-- The modules of cli/.
pub mod Versions
pub mod SetupWizard
pub mod Commands
