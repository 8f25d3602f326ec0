-- ===== src/Tools.antt =====
-- The modules of tools/.
pub mod CallTool
pub mod GetTool
pub mod SearchTool
