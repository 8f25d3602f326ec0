-- ===== src/Core.antt =====
-- The modules of core/.
pub mod Errors
pub mod RateLimiter
pub mod CircuitBreaker
pub mod ComponentRegistry
pub mod HealthCheckManager
pub mod QueryCache
pub mod Sanitizer
pub mod ConfigSchema
pub mod ConfigManager
pub mod McpServer
pub mod ShutdownHandler
pub mod CredentialStorage
pub mod Logger
pub mod Otel
pub mod CorrelationContext
