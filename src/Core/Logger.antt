-- ===== src/Core/Logger.antt =====
-- core/logger.rs and core/log_transport.rs: the level, the format and the layers of the log. Installing
-- a subscriber is the tracing library's.
use topdesk_mcp_rs.Shared.{String, Bool, Option, none, some, List, [], ◌∷◌, if◌then◌else◌}

unfoldable pub resolve_log_level_from : Option String → String
resolve_log_level_from none = "info"
resolve_log_level_from (some value) = value

unfoldable pub resolve_log_level : (String → Option String) → String
unfolding resolve_log_level_from
resolve_log_level env_var = resolve_log_level_from (env_var "TOPDESK_MCP_LOG_LEVEL")

-- The layer of the library's, or the log on standard error in one of two formats.
pub data Layer : Type 0 where
  pretty_stderr json_stderr otel_layer : Layer

-- The subscriber that is installed.
pub record Subscriber : Type 0 where
  pub layers : List Layer
  pub filter : String

-- `stderr().is_terminal()`
abbrev pub use_pretty_output : Bool → Bool
use_pretty_output is_terminal = is_terminal

unfoldable pub fmt_layer : Bool → Layer
fmt_layer is_terminal = if use_pretty_output is_terminal then pretty_stderr else json_stderr

-- `is_filter` says whether a text is a filter, `has_otel` whether there is a tracing layer.
unfoldable pub init_logging : (String → Bool) → (String → Option String) → Bool → Bool → Subscriber
unfolding resolve_log_level fmt_layer
init_logging is_filter env_var is_terminal has_otel = record {
  layers = fmt_layer is_terminal ∷ (if has_otel then otel_layer ∷ [] else []);
  filter = if is_filter (resolve_log_level env_var) then resolve_log_level env_var else "info";
}
