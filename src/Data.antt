-- ===== src/Data.antt =====
-- The modules of data/, and the tables of API versions.
pub mod Versions
pub mod Endpoints
pub mod Store
pub mod Open
