-- ===== src/Cli/Versions.antt =====
-- cli/versions.rs: the list of versions, with markers.
use Prim.Native.String.{◌++◌}
use topdesk_mcp_rs.Core.ConfigSchema.{Config}
use topdesk_mcp_rs.Core.Errors.{McpifyError, join}
use topdesk_mcp_rs.Data.Versions.{VersionRow, known_versions}
use topdesk_mcp_rs.Shared.{
  String, List, [], ◌∷◌, ◌++◌ as ◌+++◌, Result, ok, err, if◌then◌else◌, str_eq, map,
}

-- The markers of a row: `default` first, then `active`.
unfoldable pub markers : String → VersionRow → List String
markers active_version row =
    (if row.is_default then "default" ∷ [] else [])
    +++ (if str_eq row.label active_version then "active" ∷ [] else [])

unfoldable pub line : String → List String → String
line label [] = label
line label (marker ∷ more) = label ++ (" (" ++ (join ", " (marker ∷ more) ++ ")"))

-- `map(api_version).unwrap_or_default()`
abbrev pub active_version_of : Result McpifyError Config → String
active_version_of (ok config) = config.api_version
active_version_of (err e) = ""

-- The lines printed, for the configuration loaded.
unfoldable pub run : Result McpifyError Config → List String
unfolding markers line
run loaded = map (λ row. line row.label (markers (active_version_of loaded) row)) known_versions
