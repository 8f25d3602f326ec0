-- ===== src/Auth.antt =====
-- The modules of auth/.
pub mod AuthStrategy
pub mod AuthManager
