-- ===== src/Cli/SetupWizard.antt =====
-- cli/setup_wizard.rs
pub mod Prompts
pub mod Persistence
pub mod Fields
pub mod EnvFile
pub mod Settings
pub mod Loaded
pub mod Credentials
