-- ===== src/Startup.antt =====
-- main.rs: the commands of the program, the start of the server, and the exit code. The runtime, the
-- tracing library and the two transports' serving loops are a parameter; a parsed command line is a
-- value of `Command`.
pub mod Boot
pub mod Flags
pub mod Health
use topdesk_mcp_rs.Auth.AuthManager.{AuthManager, header_location_for}
use topdesk_mcp_rs.Cli.Commands.{
  CommandCrate, Lines, State, load, server_of, own_manager, run_search, run_get, run_call,
  run_config, run_version, run_test_connection, run_setup,
}
use topdesk_mcp_rs.Cli.Versions
use topdesk_mcp_rs.Core.ComponentRegistry as Registry
use topdesk_mcp_rs.Core.ConfigManager.{load_config}
use topdesk_mcp_rs.Core.ConfigSchema.{Config, Transport, stdio, http}
use topdesk_mcp_rs.Core.Errors.{AnyError, any_to_string}
use topdesk_mcp_rs.Core.HealthCheckManager as Checks
use topdesk_mcp_rs.Core.HealthCheckManager.{HealthCheckManager, CheckOutcome, register}
use topdesk_mcp_rs.Core.Logger.{Subscriber, init_logging}
use topdesk_mcp_rs.Core.McpServer.{McpifyServer}
use topdesk_mcp_rs.Core.Otel.{OtelCrate, build_layer, shutdown_tracing}
use topdesk_mcp_rs.Core.ShutdownHandler.{on_shutdown}
use topdesk_mcp_rs.Data.Store.{StoreState, resolve_store_path}
use topdesk_mcp_rs.Http.Server.{HttpServerConfig, AppState}
use topdesk_mcp_rs.Shared.{
  ℕ, String, Bool, true, Option, none, some, List, [], ◌∷◌, Result, ok, err, ◌>>◌, to_option,
}
use topdesk_mcp_rs.Shared.Dict
use mathlib.Core.Option

pub data Command : Type 0 where
  setup_command : Command
  -- The query, the limit, the warm-ups and the measured iterations.
  search_command : String → ℕ → ℕ → ℕ → Command
  get_command : String → Command
  call_command : String → String → Command
  start_command : Command
  -- The host, the port and the origin that CORS allows.
  http_command : Option String → Option ℕ → Option String → Command
  test_connection_command : Command
  config_command : Command
  version_command : Command
  versions_command : Command

-- The defaults of the flags.
abbrev pub default_limit : ℕ
default_limit = 5

abbrev pub default_args : String
default_args = "{}"

pub record HarnessCrate (W : Type 0) : Type 1 where
  pub commands : CommandCrate W
  pub set_var : String → String → W → W
  -- `to_string` of a port.
  pub show : ℕ → String
  pub otel : OtelCrate W
  -- Whether standard error is a terminal, whether a text is a filter of the log, and the
  -- installation of a subscriber.
  pub is_terminal : W → Bool
  pub is_filter : String → Bool
  pub install : Subscriber → W → W
  pub install_shutdown_handlers : W → W
  -- Opening the store at a path, within the timeout of a check.
  pub open_store : String → W → W × CheckOutcome
  -- The task of the periodic checks, started and aborted.
  pub start_checks : HealthCheckManager W → W → W
  pub abort_checks : W → W
  pub serve_http :
      HttpServerConfig → AppState → McpifyServer → AuthManager → W → W × Result AnyError (Unit {0})
  pub serve_stdio : McpifyServer → AuthManager → W → W × Result AnyError (Unit {0})

-- What the program exits with.
pub record Outcome : Type 0 where
  pub stdout : Lines
  pub stderr : Lines
  pub exit_code : ℕ

module _ {W : Type 0} (h : HarnessCrate W) where
  abbrev pub HarnessState : Type 0
  HarnessState = State h.commands

  -- What is ready to be served once the server is set up.
  pub record Harness : Type 0 where
    pub config : Config
    pub health_checks : HealthCheckManager W
    pub auth_manager : AuthManager

  -- The tracing layer, if it can be built, as the callback that shuts its provider down.
  abbrev pub built_layer : W → W × Option (W → W)
  built_layer w =
      let (w', built) = build_layer h.otel "topdesk-mcp" w in
      (w', Option.map (shutdown_tracing h.otel) (to_option built))

  abbrev pub start_logging : Option (W → W) → W → W
  start_logging otel_layer w =
      h.install
        (init_logging h.is_filter (h.commands.machine w).env_var (h.is_terminal w)
          (Dict.is_some otel_layer))
        w

  abbrev pub register_tracing : Option (W → W) → List (W → W) → List (W → W)
  register_tracing none fns = fns
  register_tracing (some provider) fns = on_shutdown provider fns

  abbrev pub health_checks_for : String → HealthCheckManager W
  health_checks_for db_path = register "store" true (h.open_store db_path) (Checks.new Registry.new)

  -- The server is ready once its store was resolved.
  unfoldable pub ready_for :
      HarnessState
      → List (W → W)
      → Config
      → StoreState h.commands.tools.store × W × Result AnyError String
      → HarnessState × List (W → W) × Result AnyError Harness
  ready_for p fns config (stores, w, err e) = (record p { stores = stores; world = w }, fns, err e)
  ready_for p fns config (stores, w, ok db_path) = (
    record p { stores = stores; world = h.start_checks (health_checks_for db_path) w },
    on_shutdown h.abort_checks fns,
    ok (record {
      config = config;
      health_checks = health_checks_for db_path;
      auth_manager = own_manager h.commands config;
    }),
  )

  -- The part of `run_harness_server` before the transport is chosen, with the cleanup callbacks.
  unfoldable pub set_up :
      HarnessState → List (W → W) → HarnessState × List (W → W) × Result AnyError Harness
  set_up p fns = elim (load h.commands p.world) [
    | err e ↦ (p, fns, err e)
    | ok config ↦
        let (w₁, provider) = built_layer p.world in
        let w₂ = h.install_shutdown_handlers (start_logging provider w₁) in
        ready_for p (register_tracing provider fns) config
          (resolve_store_path h.commands.tools.store config.api_version p.stores w₂)
  ]

  abbrev pub http_config : Config → HttpServerConfig
  http_config config = record {
    host = config.host;
    port = config.port;
    cors_allow = config.cors_allow;
  }

  abbrev pub app_state : Harness → AppState
  app_state harness =
      let (header_location, header_name) = header_location_for harness.config.auth_method in
      record {
        registry = harness.health_checks.registry;
        header_location = header_location;
        header_name = header_name;
      }

  -- The transport that the configuration names.
  unfoldable pub serve : Harness → W → W × Result AnyError (Unit {0})
  serve harness w = elim harness.config.transport [
    | http ↦
        h.serve_http (http_config harness.config) (app_state harness)
          (server_of h.commands harness.config) harness.auth_manager w
    | stdio ↦ h.serve_stdio (server_of h.commands harness.config) harness.auth_manager w
  ]

  abbrev served :
      HarnessState × List (W → W) × Result AnyError Harness
      → HarnessState × List (W → W) × Result AnyError Lines
  served (p, fns, err e) = (p, fns, err e)
  served (p, fns, ok harness) =
      let (w, done) = serve harness p.world in (record p { world = w }, fns, done >> ok [])

  unfoldable pub run_harness_server :
      HarnessState → List (W → W) → HarnessState × List (W → W) × Result AnyError Lines
  unfolding set_up serve
  run_harness_server p fns = served (set_up p fns)

  abbrev pub set_optional : String → Option String → W → W
  set_optional name none w = w
  set_optional name (some value) w = h.set_var name value w

  abbrev pub port_text : Option ℕ → Option String
  port_text none = none
  port_text (some port) = some (h.show port)

  -- The variables of the `http` command.
  unfoldable pub set_http_vars : Option String → Option ℕ → Option String → W → W
  set_http_vars host port cors_allow w = set_optional "TOPDESK_MCP_CORS_ALLOW" cors_allow (
      set_optional "TOPDESK_MCP_PORT" (port_text port)
        (set_optional "TOPDESK_MCP_HOST" host (h.set_var "TOPDESK_MCP_TRANSPORT" "http" w)))

  -- A command that leaves the cleanup callbacks alone.
  abbrev plain :
      List (W → W)
      → HarnessState × Result AnyError Lines
      → HarnessState × List (W → W) × Result AnyError Lines
  plain fns (p, answer) = (p, fns, answer)

  unfoldable pub run_command :
      Command → HarnessState → List (W → W) → HarnessState × List (W → W) × Result AnyError Lines
  unfolding run_harness_server set_http_vars
  run_command setup_command p fns = plain fns (run_setup h.commands p)
  run_command (search_command query limit warmups iterations) p fns =
      plain fns (run_search h.commands query limit warmups iterations p)
  run_command (get_command operation_id) p fns = plain fns (run_get h.commands operation_id p)
  run_command (call_command operation_id args) p fns =
      plain fns (run_call h.commands operation_id args p)
  run_command start_command p fns =
      run_harness_server (record p { world = h.set_var "TOPDESK_MCP_TRANSPORT" "stdio" p.world })
        fns
  run_command (http_command host port cors_allow) p fns =
      run_harness_server (record p { world = set_http_vars host port cors_allow p.world }) fns
  run_command test_connection_command p fns = plain fns (run_test_connection h.commands p)
  run_command config_command p fns = (p, fns, run_config h.commands p)
  run_command version_command p fns = (p, fns, run_version h.commands)
  run_command versions_command p fns =
      (p, fns, ok (Versions.run (load_config (h.commands.machine p.world) [])))

  abbrev pub outcome_of : Result AnyError Lines → Outcome
  outcome_of (ok lines) = record { stdout = lines; stderr = []; exit_code = 0 }
  outcome_of (err e) = record { stdout = []; stderr = any_to_string e ∷ []; exit_code = 1 }

  unfoldable pub main : Command → HarnessState → HarnessState × List (W → W) × Outcome
  unfolding run_command
  main command p = let (p', fns, answer) = run_command command p [] in (p', fns, outcome_of answer)
