-- ===== src/Core/ConfigSchema.antt =====
-- core/config_schema.rs: the configuration and its built-in defaults.
use topdesk_mcp_rs.Shared.{ℕ, String, Option}

pub data AuthMethod : Type 0 where
  basic : AuthMethod

pub data Transport : Type 0 where
  stdio http : Transport

abbrev pub default_log_level : String
default_log_level = "info"

abbrev pub default_rate_limit : ℕ
default_rate_limit = 100

abbrev pub default_timeout_ms : ℕ
default_timeout_ms = 30000

abbrev pub default_cache_size : ℕ
default_cache_size = 500

abbrev pub default_retry_attempts : ℕ
default_retry_attempts = 3

abbrev pub default_transport : Transport
default_transport = stdio

abbrev pub default_host : String
default_host = "127.0.0.1"

abbrev pub default_port : ℕ
default_port = 3000

abbrev pub default_api_version : String
default_api_version = "general-1.2.0"

-- `rate_limit`, `cache_size` and `retry_attempts` are u32, `timeout_ms` a u64 and `port` a u16.
pub record Config : Type 0 where
  pub url : String
  pub auth_method : AuthMethod
  pub api_version : String
  pub log_level : String
  pub rate_limit : ℕ
  pub timeout_ms : ℕ
  pub cache_size : ℕ
  pub retry_attempts : ℕ
  pub transport : Transport
  pub host : String
  pub port : ℕ
  pub cors_allow : Option String
