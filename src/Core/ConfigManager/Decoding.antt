-- ===== src/Core/ConfigManager/Decoding.antt =====
-- core/config_schema.rs under core/config_manager.rs: the numbers of a loaded configuration. The
-- decoder that serde derives from the struct's fields and attributes is a parameter; what is relied
-- on is that it reads a number field as documented.
use Prim.Native.String.{◌++◌}
use topdesk_mcp_rs.Core.ConfigManager.{
  Machine, env_suffixes, parse_env_value, merge, layers, load_config, env_overrides,
  object_or_empty, read_yaml_if_exists, resolve_home_dir,
}
use topdesk_mcp_rs.Core.ConfigManager.Cascade.{
  is_map, first_value, or_else-none, get-env_overrides, from_variable, ParsesMaps,
  merge-first_value,
}
use topdesk_mcp_rs.Core.ConfigSchema.{
  Config, default_rate_limit, default_timeout_ms, default_cache_size, default_retry_attempts,
  default_port,
}
use topdesk_mcp_rs.Json.{Value, string, number, pos_int, object, to_fields}
use topdesk_mcp_rs.Shared.{
  ℕ, ◌<◌, ◌^◌, ltb, String, true, Option, none, some, Option-cases, inl, inr, ok, map_err-eq-ok,
  ◌≡◌, refl, ap, sym, ◌∙◌, arith, if◌then◌else◌,
}
use topdesk_mcp_rs.Shared.Dict
use topdesk_mcp_rs.Shared.Dict.{Dict}

-- The fields of `Config` that hold a number.
pub data NumberField : Type 0 where
  rate_limit timeout_ms cache_size retry_attempts port : NumberField

abbrev pub key : NumberField → String
key rate_limit = "rate_limit"
key timeout_ms = "timeout_ms"
key cache_size = "cache_size"
key retry_attempts = "retry_attempts"
key port = "port"

-- The width of the field's type.
abbrev pub bits : NumberField → ℕ
bits rate_limit = 32
bits timeout_ms = 64
bits cache_size = 32
bits retry_attempts = 32
bits port = 16

-- The function that the field's attribute names.
abbrev pub default : NumberField → ℕ
default rate_limit = default_rate_limit
default timeout_ms = default_timeout_ms
default cache_size = default_cache_size
default retry_attempts = default_retry_attempts
default port = default_port

abbrev pub value_of : NumberField → Config → ℕ
value_of rate_limit config = config.rate_limit
value_of timeout_ms config = config.timeout_ms
value_of cache_size config = config.cache_size
value_of retry_attempts config = config.retry_attempts
value_of port config = config.port

-- What a number field is read as: its default when there is no value, the value when it is a number
-- that fits the field, and nothing otherwise.
abbrev pub read_number : NumberField → Option Value → Option ℕ
read_number f none = some (default f)
read_number f (some (number (pos_int n))) = if ltb n (2 ^ bits f) then some n else none
read_number f (some _) = none

-- The variable of a field.
abbrev pub variable : NumberField → String
variable rate_limit = "TOPDESK_MCP_RATE_LIMIT"
variable timeout_ms = "TOPDESK_MCP_TIMEOUT_MS"
variable cache_size = "TOPDESK_MCP_CACHE_SIZE"
variable retry_attempts = "TOPDESK_MCP_RETRY_ATTEMPTS"
variable port = "TOPDESK_MCP_PORT"

-- What the variable gives: the number that its text is, or else the text.
abbrev pub in_variable : Machine → NumberField → Option Value
in_variable m f = elim (m.env_var (variable f)) [
  | none ↦ none
  | some text ↦ elim (m.parse_u64 text) [
    | none ↦ some (string text)
    | some n ↦ some (number (pos_int n))
  ]
]

-- What a YAML file gives.
abbrev pub in_file : Machine → NumberField → String → Option Value
in_file m f path = elim (m.read_to_string path) [
  | none ↦ none
  | some text ↦ Dict.get (key f) (object_or_empty (m.parse_yaml text))
]

-- The value that decides: the flag, or else the variable, or else that of the first of the four
-- files that gives one.
abbrev pub deciding : Machine → Dict Value → NumberField → Option Value
deciding m flags f = Dict.or_else (Dict.get (key f) flags) (
    Dict.or_else (in_variable m f) (
      Dict.or_else (in_file m f "topdesk-mcp.config.yml") (
        Dict.or_else (in_file m f (resolve_home_dir m.env_var ++ "/.topdesk-mcp/config.yml")) (
          Dict.or_else (in_file m f "/etc/topdesk-mcp/config.yml")
            (in_file m f (m.install_dir ++ "/config.yml"))))))

-- A decoded configuration has what its number fields are read as.
abbrev pub ReadsNumbers : Machine → Type 0
ReadsNumbers m =
    (settings : Dict Value) (config : Config)
    → m.decode (object (to_fields settings)) ≡ ok config
    → (f : NumberField) → read_number f (Dict.get (key f) settings) ≡ some (value_of f config)

default_fits : (f : NumberField) → default f < 2 ^ bits f
default_fits rate_limit = omega arith
default_fits timeout_ms = omega arith
default_fits cache_size = omega arith
default_fits retry_attempts = omega arith
default_fits port = omega arith

-- What a field was read as fits it.
read_number-fits :
    (f : NumberField) (o : Option Value) (n : ℕ) → read_number f o ≡ some n → n < 2 ^ bits f
read_number-fits f none n e = ground (arith, default_fits f)
read_number-fits f (some (number (pos_int k))) n e = ground arith
read_number-fits f (some v) n e = ground arith

module _ (m : Machine) where
  get-read_yaml_if_exists :
      (f : NumberField) (path : String)
      → Dict.get (key f) (read_yaml_if_exists m path) ≡ in_file m f path
  unfolding read_yaml_if_exists
  get-read_yaml_if_exists f path = elim (Option-cases (m.read_to_string path)) [
    | inl absent ↦ rw (absent, read_yaml_if_exists, in_file) refl
    | inr (text, present) ↦ rw (present, read_yaml_if_exists, in_file) refl
  ]

  from_variable-number :
      (f : NumberField) → from_variable m (key f) (Dict.get (key f) env_suffixes) ≡ in_variable m f
  unfolding parse_env_value
  from_variable-number rate_limit = ground arith
  from_variable-number timeout_ms = ground arith
  from_variable-number cache_size = ground arith
  from_variable-number retry_attempts = ground arith
  from_variable-number port = ground arith

  get-env_overrides-number :
      (f : NumberField) → Dict.get (key f) (env_overrides m) ≡ in_variable m f
  get-env_overrides-number f = get-env_overrides m (key f) ∙ from_variable-number f

  first_value-deciding :
      (flags : Dict Value) (f : NumberField)
      → first_value (key f) (layers m flags) ≡ deciding m flags f
  unfolding layers
  first_value-deciding flags f =
      rw
        (
          get-env_overrides-number f,
          get-read_yaml_if_exists f "topdesk-mcp.config.yml",
          get-read_yaml_if_exists f (resolve_home_dir m.env_var ++ "/.topdesk-mcp/config.yml"),
          get-read_yaml_if_exists f "/etc/topdesk-mcp/config.yml",
          get-read_yaml_if_exists f (m.install_dir ++ "/config.yml"),
          or_else-none (in_file m f (m.install_dir ++ "/config.yml")),
        )
        refl

  pub decoded :
      (flags : Dict Value) (config : Config)
      → load_config m flags ≡ ok config
      → m.decode (object (to_fields (merge (layers m flags)))) ≡ ok config
  unfolding load_config
  decoded flags config e = map_err-eq-ok _ _ e

  -- If the flags are a map, the YAML parser gives maps and the derived decoder reads a number field
  -- as documented: each of the five numbers of a loaded configuration is the flag, or else what the
  -- variable of that name gives, or else what the first file gives that has the setting, in the order
  -- local, home, system and installation file, or else the field's default; and it fits the width of
  -- its field.
  pub load_config-numbers :
      ParsesMaps m
      → ReadsNumbers m
      → (flags : Dict Value) (config : Config) → is_map flags ≡ true
      → load_config m flags ≡ ok config
      → (f : NumberField)
      → (read_number f (deciding m flags f) ≡ some (value_of f config))
        × (value_of f config < 2 ^ bits f)
  load_config-numbers parses reads flags config h e f =
      let read = reads (merge (layers m flags)) config (decoded flags config e) f in
      let first = merge-first_value m parses flags h (key f) ∙ first_value-deciding flags f in
      (ap (read_number f) (sym first) ∙ read, read_number-fits f _ (value_of f config) read)
