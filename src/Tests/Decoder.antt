-- ===== src/Tests/Decoder.antt =====
-- A decoder of three settings of a configuration.
use topdesk_mcp_rs.Core.ConfigSchema.{Config, stdio, http}
use topdesk_mcp_rs.Json.{Value, as_str, as_object}
use topdesk_mcp_rs.Shared.{String, none, some, Result, ok, err, ok_or, ◌>>=◌, str_eq, if◌then◌else◌}
use topdesk_mcp_rs.Shared.Dict
use topdesk_mcp_rs.Shared.Dict.{Dict}
use topdesk_mcp_rs.Tests.Fixtures.{config_for}

abbrev pub text_in : String → Dict Value → Result String String
text_in name settings = elim (Dict.get name settings) [
  | none ↦ err "missing field"
  | some value ↦ ok_or (as_str value) "invalid type"
]

-- It reads three settings and keeps the rest of one configuration.
abbrev pub read_setup : Dict Value → Result String Config
read_setup settings = do
  url ← text_in "url" settings
  api_version ← text_in "api_version" settings
  transport ← text_in "transport" settings
  ok (record (config_for stdio) {
    url = url;
    api_version = api_version;
    transport = if str_eq transport "http" then http else stdio;
  })

abbrev pub decoder : Value → Result String Config
decoder value = elim (as_object value) [
  | none ↦ err "invalid type"
  | some settings ↦ read_setup settings
]
