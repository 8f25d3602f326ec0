-- ===== src/Cli/SetupWizard/Fields.antt =====
-- cli/setup_wizard.rs: the settings that the wizard saves.
use Prim.Native.String.{◌++◌}
use topdesk_mcp_rs.Cli.SetupWizard.Prompts.{WizardCrate}
use topdesk_mcp_rs.Cli.SetupWizard.Persistence.{
  global_choice, local_choice, transport_to_value, persist_selection, persist_selection_at,
  insert_credentials, build_runtime_settings, to_env_key,
}
use topdesk_mcp_rs.Core.Errors.{AnyError}
use topdesk_mcp_rs.Core.ConfigSchema.{Transport, basic, stdio, http}
use topdesk_mcp_rs.Json.{Value, string, object, to_fields}
use topdesk_mcp_rs.Shared.{
  String, Bool, true, not, ◌||◌, [], ◌∷◌, Result, all, str_eq, ◌≡◌, refl, arith, eq_iff,
}
use topdesk_mcp_rs.Shared.Dict
use topdesk_mcp_rs.Shared.Dict.{Dict, get-insert}

-- Whether a variable is one of the four that the configuration file is made of.
abbrev pub is_setting : String → Bool
is_setting name =
    str_eq name "TOPDESK_MCP_URL"
    || (str_eq name "TOPDESK_MCP_AUTH_METHOD"
        || (str_eq name "TOPDESK_MCP_API_VERSION" || str_eq name "TOPDESK_MCP_TRANSPORT"))

abbrev pub setting_fields : String → String → Transport → Dict Value
setting_fields url api_version transport =
    ("url", string url)
    ∷ ("auth_method", string "basic")
    ∷ ("api_version", string api_version)
    ∷ ("transport", transport_to_value transport)
    ∷ []

module _ {W : Type 0} (c : WizardCrate W) where
  -- No credential is named like a setting.
  abbrev pub are_apart : Dict String → Bool
  are_apart credentials =
      all (λ entry. not (is_setting ("TOPDESK_MCP_" ++ to_env_key c (entry.0)))) credentials

  get-insert_credentials :
      (name : String)
      → is_setting name ≡ true
      → (credentials env : Dict String) → are_apart credentials ≡ true
      → Dict.get name (insert_credentials c credentials env) ≡ Dict.get name env
  unfolding insert_credentials
  get-insert_credentials name known [] env h = refl
  get-insert_credentials name known ((key, value) ∷ more) env h =
      let variable = "TOPDESK_MCP_" ++ to_env_key c key in
      ground (
        arith,
        eq_iff variable name,
        get-insert_credentials name known more (Dict.insert variable value env),
        get-insert variable name value env,
      )

  -- The fields of the file are the four answers, whatever the credentials.
  pub config_fields :
      (url api_version : String) (transport : Transport) (credentials : Dict String)
      → are_apart credentials ≡ true
      → (build_runtime_settings c url basic api_version transport credentials).1
        ≡ object (to_fields (setting_fields url api_version transport))
  unfolding build_runtime_settings
  config_fields url api_version stdio credentials h =
      rw
        (
          get-insert_credentials "TOPDESK_MCP_URL" refl credentials _ h,
          get-insert_credentials "TOPDESK_MCP_AUTH_METHOD" refl credentials _ h,
          get-insert_credentials "TOPDESK_MCP_API_VERSION" refl credentials _ h,
          get-insert_credentials "TOPDESK_MCP_TRANSPORT" refl credentials _ h,
        )
        refl
  config_fields url api_version http credentials h =
      rw
        (
          get-insert_credentials "TOPDESK_MCP_URL" refl credentials _ h,
          get-insert_credentials "TOPDESK_MCP_AUTH_METHOD" refl credentials _ h,
          get-insert_credentials "TOPDESK_MCP_API_VERSION" refl credentials _ h,
          get-insert_credentials "TOPDESK_MCP_TRANSPORT" refl credentials _ h,
        )
        refl

  -- The settings of these answers, saved as the operator chose.
  abbrev pub saved :
      String → String → Transport → Dict String → String → W → W × Result AnyError (Unit {0})
  saved url api_version transport credentials choice w =
      let (env, fields) = build_runtime_settings c url basic api_version transport credentials in
      persist_selection c choice env fields w

  -- If no credential is named like a setting: saving in the local or in the home file does
  -- the same to the world, and answers the same, whatever the credentials are.
  pub saved_hides_credentials :
      (url api_version : String) (transport : Transport) (credentials others : Dict String)
      → are_apart credentials ≡ true
      → are_apart others ≡ true
      → (w : W)
      → (saved url api_version transport credentials local_choice w
          ≡ saved url api_version transport others local_choice w)
        × (saved url api_version transport credentials global_choice w
            ≡ saved url api_version transport others global_choice w)
  unfolding persist_selection persist_selection_at
  saved_hides_credentials url api_version transport credentials others h h' w =
      rw (config_fields url api_version transport credentials h)
        (rw (config_fields url api_version transport others h') (refl, refl))
