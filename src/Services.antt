-- ===== src/Services.antt =====
-- The modules of services/.
pub mod UrlBuilder
pub mod ApiClient
pub mod EmbeddingService
