-- ===== src/Cli/SetupWizard/Prompts.antt =====
-- cli/setup_wizard.rs: the questions of the wizard. The terminal, the file system, the request that
-- probes the URL, YAML, JSON and the case of letters are a parameter; an answer is one
-- `spawn_blocking` with its prompt.

use text.Mathlib.Text.{starts_with}
use topdesk_mcp_rs.Core.ConfigSchema.{AuthMethod, basic, Transport, stdio, http}
use topdesk_mcp_rs.Core.Errors.{AnyError}
use topdesk_mcp_rs.Data.Versions.{version_choices, version_of_choice}
use topdesk_mcp_rs.Json.{Value}
use topdesk_mcp_rs.Shared.{String, Bool, true, false, Option, List, [], ◌∷◌, Result, if◌then◌else◌}
use topdesk_mcp_rs.Shared.Actions.{Action, pure, act, ◌>>=◌, ◌>>◌}
use topdesk_mcp_rs.Shared.Dict
use topdesk_mcp_rs.Shared.Dict.{Dict}

abbrev pub Call : Type 0 → Type 0 → Type 0
Call W A = Action W AnyError A

pub record WizardCrate (W : Type 0) : Type 0 where
  -- The prompts of `inquire`, and lines on standard output.
  pub ask_text : String → Call W String
  pub ask_password : String → Call W String
  pub ask_select : String → List String → Call W String
  pub println : String → W → W
  -- Whether a HEAD request to the URL is answered within five seconds.
  pub head : String → W → W × Bool
  pub env_var : W → String → Option String
  pub current_dir : Call W String
  pub create_dir_all : String → Call W (Unit {0})
  pub write : String → String → Call W (Unit {0})
  -- `Path::parent`.
  pub parent : String → Option String
  pub to_yaml : Value → Result AnyError String
  pub to_json : Dict String → Result AnyError String
  pub pretty : Value → String
  -- `{:?}` of a text, `to_uppercase` and `to_lowercase`.
  pub debug : String → String
  pub to_uppercase : String → String
  pub to_lowercase : String → String

abbrev pub transport_choices : List String
transport_choices =
    "stdio (spawned as a subprocess by the MCP client)"
    ∷ "http (a standalone server the MCP client connects to over the network)" ∷ []

module _ {W : Type 0} (c : WizardCrate W) where
  abbrev pub say : String → Call W (Unit {0})
  say line = act (c.println line)

  report_reachable : W × Bool → W × Result AnyError (Unit {0})
  report_reachable (w, true) = say "reachable" w
  report_reachable (w, false) =
      say "could not reach that URL yet — continuing anyway (fix it later with `test-connection`)" w

  unfoldable pub prompt_base_url : Call W String
  unfolding report_reachable
  prompt_base_url = do
    url ← c.ask_text "General API base URL:"
    λ w. report_reachable (c.head url w)
    pure url

  unfoldable pub prompt_auth_method : Call W AuthMethod
  prompt_auth_method = pure basic

  unfoldable pub prompt_api_version : Call W String
  prompt_api_version = do
    selection ← c.ask_select "API version to use:" version_choices
    pure (version_of_choice selection)

  unfoldable pub prompt_transport : Call W Transport
  prompt_transport = do
    selection ← c.ask_select "Which transport will this deployment use?" transport_choices
    pure (if starts_with selection "stdio" then stdio else http)

  unfoldable pub prompt_credentials : AuthMethod → Call W (Dict String)
  prompt_credentials basic = do
    username ← c.ask_text "Username:"
    password ← c.ask_password "Password:"
    pure (Dict.insert "password" password (Dict.insert "username" username []))
