-- ===== src/Http.antt =====
-- The modules of http/.
pub mod AuthExtractor
pub mod Metrics
pub mod Server
