-- ===== src/Bin.antt =====
-- The programs of bin/.
pub mod PopulateEmbeddings
pub mod Healthcheck
