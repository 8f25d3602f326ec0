-- ===== src/Cli/SetupWizard/Persistence.antt =====
-- cli/setup_wizard.rs: the settings made of the answers, where they are saved, and what is printed. A
-- `HashMap` is printed in the order of its association list, where the program has any order.
use topdesk_mcp_rs.Cli.SetupWizard.Prompts.{
  WizardCrate, Call, say, prompt_base_url, prompt_auth_method, prompt_api_version, prompt_transport,
  prompt_credentials,
}
use Prim.Native.Char.{code}
use Prim.Native.String.{◌++◌}
use text.Mathlib.Text.{starts_with}
use topdesk_mcp_rs.Auth.AuthManager.{credential_account, header_location_for}
use topdesk_mcp_rs.Core.ConfigManager.{resolve_home_dir}
use topdesk_mcp_rs.Core.ConfigSchema.{AuthMethod, basic, Transport, stdio, http}
use topdesk_mcp_rs.Core.CredentialStorage.{Vault, save_credential}
use topdesk_mcp_rs.Core.Errors.{join}
use topdesk_mcp_rs.Json.{Value, null, string, array, object, to_fields, to_items, as_str}
use topdesk_mcp_rs.Shared.{
  String, Option, none, some, List, [], ◌∷◌, eqb, str_eq, if◌then◌else◌, map,
}
use topdesk_mcp_rs.Shared.Actions.{pure, lift, gets, ◌>>=◌, ◌>>◌}
use topdesk_mcp_rs.Shared.Dict
use topdesk_mcp_rs.Shared.Dict.{Dict}

-- `replace('_', "-")`
unfoldable pub replace_underscores : String → String
replace_underscores String.[] = ""
replace_underscores (String.◌∷◌ c cs) =
    let rest = replace_underscores cs in if eqb (code c) 95 then "-" ++ rest else String.◌∷◌ c rest

-- `serde_json::to_value` of the two enums.
abbrev pub method_to_value : AuthMethod → Value
method_to_value basic = string "basic"

abbrev pub transport_to_value : Transport → Value
transport_to_value stdio = string "stdio"
transport_to_value http = string "http"

-- `as_str().unwrap_or_default().to_string()`
abbrev pub text_of : Value → String
text_of v = elim (as_str v) [ none ↦ "" | some s ↦ s ]

-- An `Option<&String>` as JSON.
abbrev pub option_to_value : Option String → Value
option_to_value none = null
option_to_value (some s) = string s

abbrev pub pair_lines : (String → String → String) → Dict String → List String
pair_lines show env = map (λ entry. show (entry.0) (entry.1)) env

abbrev pub env_choice : String
env_choice = "Write a .env file"

abbrev pub global_choice : String
global_choice =
    "Write a config.yml file (global — ~/.topdesk-mcp/config.yml, read on every invocation on this machine)"

abbrev pub local_choice : String
local_choice =
    "Write a config.yml file (local — ./topdesk-mcp.config.yml, read only from this directory)"

abbrev pub print_choice : String
print_choice = "Print a ready-to-run CLI invocation (nothing written to disk)"

module _ {W : Type 0} (c : WizardCrate W) where
  abbrev pub to_env_key : String → String
  to_env_key key = c.to_uppercase key

  -- The name of the flag for a variable.
  unfoldable pub flag_of : String → String → String
  flag_of key value = "--" ++ (replace_underscores (c.to_lowercase key) ++ (" " ++ c.debug value))

  -- The parent is created unless the path is a name in the current directory.
  unfoldable pub make_parent : String → Call W (Unit {0})
  make_parent path = elim (c.parent path) [
    | none ↦ pure tt
    | some dir ↦ if str_eq dir "" then pure tt else c.create_dir_all dir
  ]

  unfoldable pub write_config_yaml : String → Value → Call W (Unit {0})
  unfolding make_parent
  write_config_yaml path config_fields = do
    yaml ← lift (c.to_yaml config_fields)
    make_parent path
    c.write path yaml
    say c ("Wrote " ++ path)
    say c
        "Credentials are never written to this file — they're stored via the OS keychain/encrypted-file fallback from the credential prompt above."

  unfoldable pub persist_selection_at :
      String → Dict String → Value → String → String → Call W (Unit {0})
  unfolding write_config_yaml flag_of
  persist_selection_at selection env config_fields local_dir global_config =
      if str_eq selection env_choice
      then c.write (local_dir ++ "/.env")
          (join "\n" (pair_lines (λ key value. key ++ ("=" ++ value)) env) ++ "\n")
        >> say c "Wrote .env"
      else if starts_with selection "Write a config.yml file (global"
      then write_config_yaml global_config config_fields
      else if starts_with selection "Write a config.yml file (local"
      then write_config_yaml (local_dir ++ "/topdesk-mcp.config.yml") config_fields
      else say c ("topdesk-mcp start " ++ join " " (pair_lines flag_of env))

  abbrev pub global_config : W → String
  global_config w = resolve_home_dir (c.env_var w) ++ "/.topdesk-mcp/config.yml"

  unfoldable pub persist_selection : String → Dict String → Value → Call W (Unit {0})
  unfolding persist_selection_at
  persist_selection selection env config_fields = do
    local_dir ← c.current_dir
    path ← gets global_config
    persist_selection_at selection env config_fields local_dir path

  unfoldable pub prompt_persistence : Dict String → Value → Call W (Unit {0})
  unfolding persist_selection
  prompt_persistence env config_fields = do
    selection ←
        c.ask_select "How should these settings be saved?"
          (env_choice ∷ global_choice ∷ local_choice ∷ print_choice ∷ [])
    persist_selection selection env config_fields

  -- The loop over the credentials.
  unfoldable pub insert_credentials : Dict String → Dict String → Dict String
  insert_credentials [] env = env
  insert_credentials ((key, value) ∷ credentials) env =
      insert_credentials credentials (Dict.insert ("TOPDESK_MCP_" ++ to_env_key key) value env)

  unfoldable pub build_runtime_settings :
      String → AuthMethod → String → Transport → Dict String → Dict String × Value
  unfolding insert_credentials
  build_runtime_settings url auth_method api_version transport credentials =
      let env = insert_credentials credentials (
        Dict.insert "TOPDESK_MCP_TRANSPORT" (text_of (transport_to_value transport)) (
          Dict.insert "TOPDESK_MCP_API_VERSION" api_version (
            Dict.insert "TOPDESK_MCP_AUTH_METHOD" (text_of (method_to_value auth_method))
              (Dict.insert "TOPDESK_MCP_URL" url [])))) in
      (
        env,
        object (
            to_fields (
              ("url", option_to_value (Dict.get "TOPDESK_MCP_URL" env))
              ∷ ("auth_method", option_to_value (Dict.get "TOPDESK_MCP_AUTH_METHOD" env))
              ∷ ("api_version", option_to_value (Dict.get "TOPDESK_MCP_API_VERSION" env))
              ∷ ("transport", option_to_value (Dict.get "TOPDESK_MCP_TRANSPORT" env))
              ∷ [])),
      )

  -- `json!({"mcpServers": {"topdesk-mcp": server}})`
  abbrev pub mcp_servers : Dict Value → Value
  mcp_servers server = object (
      to_fields
        (("mcpServers", object (to_fields (("topdesk-mcp", object (to_fields server)) ∷ []))) ∷ []))

  abbrev pub env_to_value : Dict String → Value
  env_to_value env = object (to_fields (map (λ entry. (entry.0, string (entry.1))) env))

  unfoldable pub print_mcp_client_config : Transport → AuthMethod → Dict String → Call W (Unit {0})
  unfolding flag_of
  print_mcp_client_config stdio auth_method env = do
    say c "\nMCP client config (stdio):"
    say c (
        c.pretty (
          mcp_servers (
            ("command", string "topdesk-mcp")
            ∷ ("args", array (to_items (string "start" ∷ [])))
            ∷ ("env", env_to_value env)
            ∷ [])))
    say c ("(equivalently: `topdesk-mcp start " ++ (join " " (pair_lines flag_of env) ++ "`)"))
  print_mcp_client_config http auth_method env = do
    let header_name = (header_location_for auth_method).1
    say c
        "\nMCP client config (http) — adjust the host/port to match how you run `topdesk-mcp http`:"
    say c (
        c.pretty (
          mcp_servers (
            ("url", string "http://127.0.0.1:3000/mcp")
            ∷ ("headers", object (to_fields ((header_name, string "<credential value here>") ∷ [])))
            ∷ [])))
    say c (
        "Credentials are never read from local config/env over HTTP transport — every request must carry its own \""
        ++ (header_name ++ "\" header."))

  abbrev pub run_command : Transport → String
  run_command stdio = "start"
  run_command http = "http"

  module _ (v : Vault W) where
    -- What follows the answers: the credentials saved, the settings saved, the advice printed.
    unfoldable pub finish_setup :
        String → AuthMethod → Dict String → String → Transport → Call W (Unit {0})
    unfolding build_runtime_settings prompt_persistence print_mcp_client_config
    finish_setup url auth_method credentials api_version transport = do
      text ← lift (c.to_json credentials)
      save_credential v credential_account text
      let settings = build_runtime_settings url auth_method api_version transport credentials
      prompt_persistence (settings.0) (settings.1)
      print_mcp_client_config transport auth_method (settings.0)
      say c ("Setup complete! Run: topdesk-mcp " ++ run_command transport)

    unfoldable pub run_setup_wizard : Call W (Unit {0})
    unfolding finish_setup
    run_setup_wizard = do
      url ← prompt_base_url c
      auth_method ← prompt_auth_method c
      credentials ← prompt_credentials c auth_method
      api_version ← prompt_api_version c
      transport ← prompt_transport c
      finish_setup url auth_method credentials api_version transport
