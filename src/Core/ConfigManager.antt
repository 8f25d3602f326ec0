-- ===== src/Core/ConfigManager.antt =====
-- core/config_manager.rs: the layers of the configuration. The environment, the files, the YAML
-- parser and serde's decoding into `Config` are a parameter.
pub mod Cascade
pub mod Decoding
use Prim.Native.String.{◌++◌}
use topdesk_mcp_rs.Core.ConfigSchema.{Config}
use topdesk_mcp_rs.Core.Errors.{McpifyError, configuration}
use topdesk_mcp_rs.Json.{Value, string, number, pos_int, object, as_object, to_fields}
use topdesk_mcp_rs.Shared.{
  ℕ, String, Bool, true, false, ◌||◌, Option, none, some, List, [], ◌∷◌, Result, map_err, str_eq,
  any,
}
use topdesk_mcp_rs.Shared.Dict
use topdesk_mcp_rs.Shared.Dict.{Dict}

pub record Machine : Type 0 where
  pub env_var : String → Option String
  pub read_to_string : String → Option String
  pub parse_yaml : String → Option Value
  pub parse_u64 : String → Option ℕ
  pub decode : Value → Result String Config
  pub install_dir : String

abbrev pub numeric_keys : List String
numeric_keys = "rate_limit" ∷ "timeout_ms" ∷ "cache_size" ∷ "retry_attempts" ∷ "port" ∷ []

abbrev pub env_suffixes : List (String × String)
env_suffixes =
    ("url", "URL")
    ∷ ("auth_method", "AUTH_METHOD")
    ∷ ("api_version", "API_VERSION")
    ∷ ("log_level", "LOG_LEVEL")
    ∷ ("transport", "TRANSPORT")
    ∷ ("host", "HOST")
    ∷ ("cors_allow", "CORS_ALLOW")
    ∷ ("rate_limit", "RATE_LIMIT")
    ∷ ("timeout_ms", "TIMEOUT_MS")
    ∷ ("cache_size", "CACHE_SIZE")
    ∷ ("retry_attempts", "RETRY_ATTEMPTS")
    ∷ ("port", "PORT")
    ∷ []

-- The first of `HOME` and `USERPROFILE` that is set, or the current directory
-- (core/credential_storage.rs).
unfoldable pub resolve_home_dir : (String → Option String) → String
resolve_home_dir env_var = elim (Dict.or_else (env_var "HOME") (env_var "USERPROFILE")) [
  | some dir ↦ dir
  | none ↦ "."
]

-- The fields of a parsed file; anything but an object counts as no fields.
abbrev pub object_or_empty : Option Value → Dict Value
object_or_empty none = []
object_or_empty (some v) = elim (as_object v) [ none ↦ [] | some m ↦ m ]

-- The merge of the layers, the highest first: each is put on top of those below.
unfoldable pub merge : List (Dict Value) → Dict Value
merge [] = []
merge (layer ∷ lower) = Dict.extend (merge lower) layer

module _ (m : Machine) where
  unfoldable pub read_yaml_if_exists : String → Dict Value
  read_yaml_if_exists path = elim (m.read_to_string path) [
    | none ↦ []
    | some contents ↦ object_or_empty (m.parse_yaml contents)
  ]

  unfoldable pub parse_env_value : String → String → Value
  parse_env_value config_key value = elim (any (str_eq config_key) numeric_keys) [
    | false ↦ string value
    | true ↦ elim (m.parse_u64 value) [ none ↦ string value | some n ↦ number (pos_int n) ]
  ]

  -- The loop over the table of keys and suffixes.
  unfoldable pub override_each : List (String × String) → Dict Value → Dict Value
  override_each [] overrides = overrides
  override_each ((config_key, env_suffix) ∷ rows) overrides =
      override_each rows (elim (m.env_var ("TOPDESK_MCP_" ++ env_suffix)) [
        | none ↦ overrides
        | some value ↦ Dict.insert config_key (parse_env_value config_key value) overrides
      ])

  unfoldable pub env_overrides : Dict Value
  env_overrides = override_each env_suffixes []

  unfoldable pub layers : Dict Value → List (Dict Value)
  layers cli_flags =
      cli_flags
      ∷ env_overrides
      ∷ read_yaml_if_exists "topdesk-mcp.config.yml"
      ∷ read_yaml_if_exists (resolve_home_dir m.env_var ++ "/.topdesk-mcp/config.yml")
      ∷ read_yaml_if_exists "/etc/topdesk-mcp/config.yml"
      ∷ read_yaml_if_exists (m.install_dir ++ "/config.yml")
      ∷ []

  unfoldable pub load_config : Dict Value → Result McpifyError Config
  load_config cli_flags =
      map_err (λ e. configuration ("invalid configuration: " ++ e))
        (m.decode (object (to_fields (merge (layers cli_flags)))))
