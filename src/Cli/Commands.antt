-- ===== src/Cli/Commands.antt =====
-- cli/search.rs, cli/get.rs, cli/call.rs, cli/config.rs, cli/version.rs, cli/setup.rs,
-- cli/test_connection.rs: the commands, over the state of a process. What a command prints on
-- standard output is its value; the timing line of a profiled search is not modelled.
pub mod Agreement
use Prim.Native.String.{◌++◌}
use topdesk_mcp_rs.Auth.AuthManager
use topdesk_mcp_rs.Auth.AuthManager.{apply_auth_headers}
use topdesk_mcp_rs.Cli.SetupWizard.Persistence.{
  run_setup_wizard, method_to_value, transport_to_value, option_to_value,
}
use topdesk_mcp_rs.Cli.SetupWizard.Prompts.{WizardCrate}
use topdesk_mcp_rs.Core.ConfigManager.{Machine, load_config}
use topdesk_mcp_rs.Core.ConfigSchema.{Config, stdio}
use topdesk_mcp_rs.Core.CredentialStorage.{Vault}
use topdesk_mcp_rs.Core.Errors.{AnyError, mcpify, message}
use topdesk_mcp_rs.Core.McpServer.{ToolCrate, Process, McpifyServer, connect, lookup}
use topdesk_mcp_rs.Core.Sanitizer.{sanitize}
use topdesk_mcp_rs.Data.Endpoints.{EndpointRecord}
use topdesk_mcp_rs.Json.{Value, string, number, pos_int, object, to_fields}
use topdesk_mcp_rs.Services.ApiClient.Dispatch.{HttpCrate, Request, no_body}
use topdesk_mcp_rs.Services.UrlBuilder.{build_api_url}
use topdesk_mcp_rs.Shared.{
  ℕ, zero, suc, ◌-◌, String, Bool, true, false, Option, none, some, List, [], ◌∷◌, Result, ok, err,
  ok_or, map_err, ◌>>=◌, ◌>>◌, eqb, if◌then◌else◌,
}
use topdesk_mcp_rs.Shared.Dict.{Dict}
use topdesk_mcp_rs.Tools.CallTool.{call_operation}
use topdesk_mcp_rs.Tools.GetTool.{get_operation, require_endpoint}
use topdesk_mcp_rs.Tools.SearchTool.{search_operations}

-- The package's version, of Cargo.toml.
abbrev pub package_version : String
package_version = "0.6.5"

-- `serde_json::to_value` of the configuration.
abbrev pub config_to_value : Config → Value
config_to_value config = object (
    to_fields (
      ("url", string config.url)
      ∷ ("auth_method", method_to_value config.auth_method)
      ∷ ("api_version", string config.api_version)
      ∷ ("log_level", string config.log_level)
      ∷ ("rate_limit", number (pos_int config.rate_limit))
      ∷ ("timeout_ms", number (pos_int config.timeout_ms))
      ∷ ("cache_size", number (pos_int config.cache_size))
      ∷ ("retry_attempts", number (pos_int config.retry_attempts))
      ∷ ("transport", transport_to_value config.transport)
      ∷ ("host", string config.host)
      ∷ ("port", number (pos_int config.port))
      ∷ ("cors_allow", option_to_value config.cors_allow)
      ∷ []))

-- The libraries of the commands: those of the tools, the configuration's, the wizard's, and what
-- the probe reads of a response.
pub record CommandCrate (W : Type 0) : Type 1 where
  pub tools : ToolCrate W
  pub machine : W → Machine
  pub wizard : WizardCrate W
  pub vault : Vault W
  pub to_lowercase : String → String
  pub invalid_json : String → AnyError
  pub get_method : tools.libraries.http.Method
  pub is_success : tools.libraries.http.Response → Bool
  pub status_text : tools.libraries.http.Response → String

abbrev pub Lines : Type 0
Lines = List String

module _ {W : Type 0} (c : CommandCrate W) where
  abbrev pub State : Type 0
  State = Process c.tools

  -- `load_config(Map::new())?`
  abbrev pub load : W → Result AnyError Config
  load w = map_err mcpify (load_config (c.machine w) [])

  abbrev pub server_of : Config → McpifyServer
  server_of config = record { api_version = config.api_version; config = config }

  -- The value of a command, printed in one line.
  abbrev pub printed : Result AnyError Value → Result AnyError Lines
  printed found = found >>= λ value. ok (c.tools.pretty value ∷ [])

  -- One search of the command, of the connection in memory.
  abbrev pub search_once : c.tools.store.Conn → String → ℕ → Result AnyError Value
  search_once conn query limit = search_operations c.tools.search conn query limit

  -- The loop of searches whose results are dropped.
  unfoldable pub warm_up : ℕ → c.tools.store.Conn → String → ℕ → Result AnyError (Unit {0})
  warm_up zero conn query limit = ok tt
  warm_up (suc n) conn query limit =
      search_once conn query limit >>= λ _. warm_up n conn query limit

  -- The loop of the other measured searches: the last result is kept.
  unfoldable pub measure : ℕ → c.tools.store.Conn → String → ℕ → Value → Result AnyError Value
  measure zero conn query limit results = ok results
  measure (suc n) conn query limit results =
      search_once conn query limit >>= λ again. measure n conn query limit again

  -- The warm-ups, the first measured search, and the others.
  unfoldable pub searches : ℕ → ℕ → c.tools.store.Conn → String → ℕ → Result AnyError Value
  unfolding warm_up measure
  searches warmups iterations conn query limit = do
    _ ← warm_up warmups conn query limit
    results ← search_once conn query limit
    measure (iterations - 1) conn query limit results

  unfoldable pub run_search : String → ℕ → ℕ → ℕ → State → State × Result AnyError Lines
  unfolding searches
  run_search query limit warmups iterations p =
      if eqb iterations 0
      then (p, err (message "--profile-iterations must be at least 1"))
      else elim (load p.world) [
        | err e ↦ (p, err e)
        | ok config ↦
            let (p', connected) = connect c.tools (server_of config) p in
            (p', printed (connected >>= λ conn. searches warmups iterations conn query limit))
      ]

  unfoldable pub run_get : String → State → State × Result AnyError Lines
  run_get operation_id p = elim (load p.world) [
    | err e ↦ (p, err e)
    | ok config ↦
        let (p', connected) = connect c.tools (server_of config) p in
        (
          p',
          printed
              (connected >>= λ conn. get_operation operation_id (lookup c.tools conn operation_id)),
        )
  ]

  -- The manager that a command makes for itself.
  abbrev pub own_manager : Config → AuthManager.AuthManager
  own_manager config = AuthManager.new c.tools.surroundings.encode config.auth_method

  -- The call, once the arguments and the operation's record are known.
  unfoldable pub call_endpoint :
      Config → String → Value → State → EndpointRecord → State × Result AnyError Lines
  call_endpoint config operation_id args p endpoint =
      let (st, response) =
        call_operation c.tools.libraries c.tools.surroundings c.tools.schemas endpoint config
          operation_id args none
          (record { caches = p.caches; auth_manager = own_manager config; world = p.world }) in
      (
        record p { caches = st.caches; auth_manager = st.auth_manager; world = st.world },
        printed response,
      )

  unfoldable pub run_call : String → String → State → State × Result AnyError Lines
  unfolding call_endpoint
  run_call operation_id args_json p = elim (load p.world) [
    | err e ↦ (p, err e)
    | ok config ↦ elim (c.tools.parse_json args_json) [
      | none ↦ (p, err (c.invalid_json args_json))
      | some args ↦
          let (p', connected) = connect c.tools (server_of config) p in
          elim (connected >>= λ conn.
          require_endpoint operation_id (lookup c.tools conn operation_id)) [
            | err e ↦ (p', err e)
            | ok endpoint ↦ call_endpoint config operation_id args p' endpoint
          ]
    ]
  ]

  unfoldable pub run_config : State → Result AnyError Lines
  run_config p =
      printed (load p.world >>= λ config. ok (sanitize c.to_lowercase (config_to_value config)))

  unfoldable pub run_version : Result AnyError Lines
  run_version = ok (package_version ∷ [])

  unfoldable pub probe : Config → Dict String → W → W × Result AnyError Lines
  probe config headers w = elim (build_api_url c.tools.libraries.url config.url "/" []) [
    | err e ↦ (w, err e)
    | ok url ↦
        let (w', sent) =
          c.tools.libraries.http.send
            (record {
              method = c.get_method;
              url = url;
              timeout_ms = config.timeout_ms;
              headers = headers;
              body = no_body;
            })
            w in
        (
          w',
          sent >>= λ response.
              if c.is_success response
              then ok ("connection OK" ∷ [])
              else err (message ("connection failed: HTTP " ++ c.status_text response)),
        )
  ]

  unfoldable pub run_test_connection : State → State × Result AnyError Lines
  unfolding probe
  run_test_connection p = elim (load p.world) [
    | err e ↦ (p, err e)
    | ok config ↦
        let (m, w, decorated) =
          apply_auth_headers c.tools.surroundings (own_manager config) [] stdio none p.world in
        elim decorated [
          | err e ↦ (record p { world = w }, err e)
          | ok headers ↦
              let (w', answer) = probe config headers w in (record p { world = w' }, answer)
        ]
  ]

  -- The wizard prints as it goes, in the world.
  unfoldable pub run_setup : State → State × Result AnyError Lines
  run_setup p =
      let (w, done) = run_setup_wizard c.wizard c.vault p.world in
      (record p { world = w }, done >> ok [])
