-- ===== src/Tests/Startup.antt =====
-- The commands and the start of the server; the world is the environment.

use topdesk_mcp_rs.Cli.Commands.{load, server_of, own_manager, run_search, run_get, run_call}
use topdesk_mcp_rs.Cli.Commands.Agreement.{same, run_search-search, run_call-call}
use topdesk_mcp_rs.Core.Otel.{build_layer, shutdown_tracing}
use topdesk_mcp_rs.Core.ConfigManager.{
  load_config, layers, env_overrides, override_each, merge, read_yaml_if_exists, resolve_home_dir,
  parse_env_value,
}
use topdesk_mcp_rs.Core.ConfigSchema.{Config, stdio, http}
use topdesk_mcp_rs.Core.HealthCheckManager.{run_ticks}
use topdesk_mcp_rs.Core.McpServer
use topdesk_mcp_rs.Core.McpServer.{ToolCrate}
use topdesk_mcp_rs.Core.ShutdownHandler.{on_shutdown, shutdown}
use topdesk_mcp_rs.Data.Store.{resolve_store_path, embedded, extract, move_into_place}
use topdesk_mcp_rs.Json.{empty_object, fields-to_fields}
use topdesk_mcp_rs.Shared.{
  ℕ, String, none, some, List, [], ◌∷◌, Result, ok, err, ◌≡◌, refl, ap, sym, ◌∙◌, arith,
}
use topdesk_mcp_rs.Shared.Dict
use topdesk_mcp_rs.Shared.Dict.{Dict, get-insert}
use topdesk_mcp_rs.Startup.{
  HarnessState, Harness, set_up, ready_for, set_http_vars, health_checks_for,
}
use topdesk_mcp_rs.Startup.Boot.{shut_tracing, shutdown-set_up}
use topdesk_mcp_rs.Startup.Flags.{DecodesSettings, IsEnvironment, set_up-http}
use topdesk_mcp_rs.Startup.Health.{healthz_status, status_for, healthz-run_ticks}
use topdesk_mcp_rs.Tests.Fixtures.{config_for}
use topdesk_mcp_rs.Tests.Harness.{Env, machine_in, tools, commands, state, harness_crate}

loaded : load commands [] ≡ ok (config_for stdio)
unfolding load_config layers env_overrides override_each merge read_yaml_if_exists resolve_home_dir
loaded = refl

run_search-search_example :
    (same commands (run_search commands "assets" 5 2 3 state)
      ≡ McpServer.search tools
          (server_of commands (config_for stdio))
          (record { query = "assets"; limit = 5 })
          state)
    × (same commands (run_get commands "getAsset" state)
        ≡ McpServer.get tools (server_of commands (config_for stdio)) "getAsset" state)
run_search-search_example =
    run_search-search commands (config_for stdio) state loaded "assets" 5 2 3 "getAsset"
      (omega arith)

run_call-call_example :
    same commands (run_call commands "getAsset" "{}" state)
    ≡ McpServer.call tools
        (server_of commands (config_for stdio))
        (record { operation_id = "getAsset"; arguments = empty_object })
        none
        state
run_call-call_example =
    run_call-call commands (config_for stdio) empty_object "{}" "getAsset" state loaded refl refl

-- The environment that `http --host 0.0.0.0 --port 4000 --cors-allow https://app.example` leaves.
abbrev http_env : Env
http_env =
    ("TOPDESK_MCP_TRANSPORT", "http")
    ∷ ("TOPDESK_MCP_HOST", "0.0.0.0")
    ∷ ("TOPDESK_MCP_PORT", "4000")
    ∷ ("TOPDESK_MCP_CORS_ALLOW", "https://app.example")
    ∷ []

abbrev http_harness : Harness harness_crate
http_harness = record {
  config = record (config_for http) {
    host = "0.0.0.0";
    port = 4000;
    cors_allow = some "https://app.example";
  };
  health_checks = health_checks_for harness_crate "/tmp/store/mcp_store.db";
  auth_manager = own_manager commands (config_for http);
}

abbrev http_state : HarnessState harness_crate
http_state = record state {
  stores = record {
    extracted = ("general-1.2.0", "/tmp/store/mcp_store.db") ∷ [];
    unique = 1;
    connections = [];
  };
  world = http_env;
}

abbrev cleanup : List (Env → Env)
cleanup = Dict.insert "tracing" "down" ∷ Dict.insert "checks" "aborted" ∷ []

http_set_up :
    set_up harness_crate
      (record state {
        world =
            set_http_vars harness_crate
              (some "0.0.0.0")
              (some 4000)
              (some "https://app.example")
              [];
      })
      []
    ≡ (http_state, cleanup, ok http_harness)
unfolding set_up ready_for set_http_vars load_config layers env_overrides override_each merge
    read_yaml_if_exists resolve_home_dir parse_env_value resolve_store_path embedded extract
    move_into_place on_shutdown build_layer shutdown_tracing
http_set_up = refl

-- The configuration that a decoding gave.
abbrev given : Result String Config → Config
given (ok config) = config
given (err e) = config_for stdio

machine_in-DecodesSettings : (w : Env) → DecodesSettings (machine_in w)
machine_in-DecodesSettings w = record {
  of_transport = λ settings config e set.
      ap (λ r. (given r).transport) (sym e) ∙ rw (fields-to_fields settings, set) refl;
  of_stdio = λ settings config e set.
      ap (λ r. (given r).transport) (sym e) ∙ rw (fields-to_fields settings, set) refl;
  of_host = λ settings config text e set.
      ap (λ r. (given r).host) (sym e) ∙ rw (fields-to_fields settings, set) refl;
  of_port = λ settings config n e set.
      ap (λ r. (given r).port) (sym e) ∙ rw (fields-to_fields settings, set) refl;
  of_cors_allow = λ settings config text e set.
      ap (λ r. (given r).cors_allow) (sym e) ∙ rw (fields-to_fields settings, set) refl;
}

harness_crate-IsEnvironment : IsEnvironment harness_crate
harness_crate-IsEnvironment = record {
  sets = λ name value other w. get-insert name other value w;
  parses = λ w text. refl;
  decodes = machine_in-DecodesSettings;
}

set_up-http_example :
    (http_harness.config.transport ≡ http)
    × (http_harness.config.host ≡ "0.0.0.0")
    × (http_harness.config.port ≡ 4000)
    × (http_harness.config.cors_allow ≡ some "https://app.example")
set_up-http_example =
    set_up-http harness_crate harness_crate-IsEnvironment "0.0.0.0" "https://app.example" 4000 state
      http_state [] cleanup http_harness (λ w. refl) http_set_up

shutdown-set_up_example :
    shutdown cleanup []
    ≡ shutdown [] (
        shut_tracing harness_crate
          (some (Dict.insert "tracing" "down"))
          (harness_crate.abort_checks []))
unfolding build_layer shutdown_tracing
shutdown-set_up_example =
    shutdown-set_up harness_crate
      (record state {
        world =
            set_http_vars harness_crate (some "0.0.0.0") (some 4000) (some "https://app.example")
              [];
      })
      http_state [] cleanup http_harness http_set_up []

abbrev no_clock : Env → ℕ
no_clock w = 0

abbrev store_goes : Env → Env
store_goes w = Dict.insert "gone" "yes" w

healthz-run_ticks_example :
    (healthz_status harness_crate "header" "Authorization"
        (health_checks_for harness_crate "/tmp/x").registry
      ≡ 200)
    × (healthz_status harness_crate "header" "Authorization"
          (run_ticks no_clock store_goes 2 (health_checks_for harness_crate "/tmp/x") []).1.registry
        ≡ status_for harness_crate
            (harness_crate.open_store "/tmp/x" (
              store_goes
                (run_ticks no_clock store_goes 1
                  (health_checks_for harness_crate "/tmp/x")
                  []).0)).1)
healthz-run_ticks_example =
    healthz-run_ticks harness_crate no_clock store_goes "/tmp/x" "header" "Authorization" 1 []
