-- ===== src/Cli/SetupWizard/Loaded.antt =====
-- cli/setup_wizard.rs and core/config_manager.rs: the configuration that is loaded once the wizard has
-- saved its settings.
use topdesk_mcp_rs.Cli.SetupWizard.Fields.{are_apart, saved}
use topdesk_mcp_rs.Cli.SetupWizard.Persistence.{local_choice, global_choice, transport_to_value}
use topdesk_mcp_rs.Cli.SetupWizard.Prompts.{WizardCrate}
use topdesk_mcp_rs.Cli.SetupWizard.Settings.{
  HasSettings, IsSystem, IsUnset, IsParsed, saved_local-HasSettings, saved_global-HasSettings,
}
use topdesk_mcp_rs.Core.ConfigManager.{Machine, load_config, layers, merge}
use topdesk_mcp_rs.Core.ConfigManager.Cascade.{ParsesMaps}
use topdesk_mcp_rs.Core.ConfigManager.Decoding.{decoded}
use topdesk_mcp_rs.Core.ConfigSchema.{Config, Transport}
use topdesk_mcp_rs.Json.{Value, string, object, to_fields}
use topdesk_mcp_rs.Shared.{String, [], true, none, some, ok, ◌≡◌}
use topdesk_mcp_rs.Shared.Dict
use topdesk_mcp_rs.Shared.Dict.{Dict}

-- What the derived decoder makes of three settings.
pub record DecodesSetup (m : Machine) : Type 0 where
  pub of_url :
      (settings : Dict Value) (config : Config) (text : String)
      → m.decode (object (to_fields settings)) ≡ ok config
      → Dict.get "url" settings ≡ some (string text)
      → config.url ≡ text
  pub of_api_version :
      (settings : Dict Value) (config : Config) (text : String)
      → m.decode (object (to_fields settings)) ≡ ok config
      → Dict.get "api_version" settings ≡ some (string text)
      → config.api_version ≡ text
  pub of_transport :
      (settings : Dict Value) (config : Config) (transport : Transport)
      → m.decode (object (to_fields settings)) ≡ ok config
      → Dict.get "transport" settings ≡ some (transport_to_value transport)
      → config.transport ≡ transport

-- The configuration has the operator's answers.
abbrev pub IsSetUp : Config → String → String → Transport → Type 0
IsSetUp config url api_version transport =
    (config.url ≡ url) × (config.api_version ≡ api_version) × (config.transport ≡ transport)

HasSettings-IsSetUp :
    (m : Machine)
    → DecodesSetup m
    → (url api_version : String) (transport : Transport) → HasSettings m url api_version transport
    → (config : Config) → load_config m [] ≡ ok config
    → IsSetUp config url api_version transport
HasSettings-IsSetUp m decodes url api_version transport (u, _, v, t) config e =
    let d = decoded m [] config e in
    let settings = merge (layers m []) in
    (
      decodes.of_url settings config url d u,
      decodes.of_api_version settings config api_version d v,
      decodes.of_transport settings config transport d t,
    )

module _ {W : Type 0} (c : WizardCrate W) (m : W → Machine) (url api_version : String)
    (transport : Transport) (credentials : Dict String)
    (apart : are_apart c credentials ≡ true) where
  -- If the file system keeps what is written, no credential is named like a setting, the parser
  -- gives maps and reads these settings back, the derived decoder reads the URL, the version and
  -- the transport as documented, no variable gives any of the settings, and saving them in the
  -- local file succeeds: a configuration that is loaded afterwards has the URL, the version and the
  -- transport that the operator gave, whatever the other files say.
  pub saved_local-load_config :
      IsSystem c m
      → (w w' : W) → ParsesMaps (m w')
      → DecodesSetup (m w')
      → IsUnset (m w')
      → IsParsed c m (m w') url api_version transport
      → saved c url api_version transport credentials local_choice w ≡ (w', ok tt)
      → (config : Config) → load_config (m w') [] ≡ ok config
      → IsSetUp config url api_version transport
  saved_local-load_config sys w w' maps decodes unset parsed h config e =
      HasSettings-IsSetUp (m w') decodes url api_version transport
        (saved_local-HasSettings c m url api_version transport credentials apart sys w w' maps unset
          parsed h)
        config e

  -- Under the same conditions, and without a local file, saving the settings in the home file
  -- has the same effect.
  pub saved_global-load_config :
      IsSystem c m
      → (w w' : W) → ParsesMaps (m w')
      → DecodesSetup (m w')
      → IsUnset (m w')
      → IsParsed c m (m w') url api_version transport
      → (m w').read_to_string "topdesk-mcp.config.yml" ≡ none
      → saved c url api_version transport credentials global_choice w ≡ (w', ok tt)
      → (config : Config) → load_config (m w') [] ≡ ok config
      → IsSetUp config url api_version transport
  saved_global-load_config sys w w' maps decodes unset parsed absent h config e =
      HasSettings-IsSetUp (m w') decodes url api_version transport
        (saved_global-HasSettings c m url api_version transport credentials apart sys w w' maps
          unset parsed absent h)
        config e
