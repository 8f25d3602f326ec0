-- ===== src/Tests/Harness.antt =====
-- A command line and a server whose world is the environment, for the tests.
use topdesk_mcp_rs.Auth.AuthManager.{Surroundings}
use topdesk_mcp_rs.Cli.Commands.{CommandCrate, State, own_manager}
use topdesk_mcp_rs.Cli.SetupWizard.Prompts.{WizardCrate}
use topdesk_mcp_rs.Core.ConfigManager.{Machine}
use topdesk_mcp_rs.Core.ConfigSchema.{Config, Transport, stdio, http}
use topdesk_mcp_rs.Core.CredentialStorage.{Vault, Bytes, unavailable}
use topdesk_mcp_rs.Core.Errors.{message}
use topdesk_mcp_rs.Core.HealthCheckManager.{passed, failed}
use topdesk_mcp_rs.Core.McpServer.{ToolCrate}
use topdesk_mcp_rs.Data.Endpoints.{returned_no_rows}
use topdesk_mcp_rs.Data.Store.{StoreCrate}
use topdesk_mcp_rs.Json.{Value, string, number, pos_int, as_str, member, empty_object}
use topdesk_mcp_rs.Services.ApiClient.Dispatch.{HttpCrate}
use topdesk_mcp_rs.Services.ApiClient.Execute.{Libraries}
use topdesk_mcp_rs.Shared.{
  ℕ, String, true, false, Option, none, some, [], ok, err, str_eq, if◌then◌else◌,
}
use topdesk_mcp_rs.Shared.Dict
use topdesk_mcp_rs.Shared.Dict.{Dict, get-insert}
use topdesk_mcp_rs.Startup.{HarnessCrate}
use topdesk_mcp_rs.Tests.Fixtures.{
  twelve_bytes, config_for, text_urls, open_schemas, no_caches, search_crate,
}

abbrev pub Env : Type 0
Env = Dict String

-- What the decoding reads of a setting.
abbrev pub text_or : String → Option Value → String
text_or default none = default
text_or default (some v) = elim (as_str v) [ none ↦ default | some s ↦ s ]

abbrev pub number_or : ℕ → Option Value → ℕ
number_or default (some (number (pos_int n))) = n
number_or default _ = default

abbrev pub transport_of : Option Value → Transport
transport_of setting = if str_eq (text_or "stdio" setting) "http" then http else stdio

abbrev pub origin_of : Option Value → Option String
origin_of none = none
origin_of (some v) = as_str v

abbrev pub decoded : Value → Config
decoded v = record (config_for stdio) {
  transport = transport_of (member "transport" v);
  host = text_or "127.0.0.1" (member "host" v);
  port = number_or 3000 (member "port" v);
  cors_allow = origin_of (member "cors_allow" v);
}

-- Numbers are printed and parsed as the one port that is used.
abbrev pub machine_in : Env → Machine
machine_in env = record {
  env_var = λ name. Dict.get name env;
  read_to_string = λ path. none;
  parse_yaml = λ text. none;
  parse_u64 = λ text. some 4000;
  decode = λ value. ok (decoded value);
  install_dir = "/opt/topdesk-mcp";
}

abbrev pub store_crate : StoreCrate Env
store_crate = record {
  Bytes = String;
  Disk = String;
  Conn = String;
  store_dir = "/tmp/store";
  create_dir_all = λ dir w. (w, ok tt);
  decode_all = λ bytes. ok bytes;
  write = λ path bytes w. (w, ok tt);
  rename = λ from to w. (w, ok tt);
  sleep_ms = λ ms w. w;
  pid = 7;
  show = λ n. "0";
  open_read_only = λ path w. (w, ok path);
  backup_into_memory = λ disk w. (w, ok disk);
}

abbrev pub http_crate : HttpCrate Env
http_crate = record {
  Method = String;
  Response = String;
  method_from_bytes = λ text. ok text;
  is_get_or_head = λ method. str_eq method "GET";
  send = λ request w. (w, ok "answer");
  error_for_status = λ response. ok response;
  read_json = λ response w. (w, ok (string response));
}

abbrev pub libraries : Libraries Env
libraries = record {
  clock = λ w. 0;
  url = text_urls;
  http = http_crate;
  print = λ value. "{}";
  percent_encode = λ text. text;
}

abbrev pub surroundings : Surroundings Env
surroundings = record {
  env_var = λ w name. Dict.get name w;
  load_credential = λ account w. ok none;
  save_credential = λ account value w. (w, ok tt);
  to_json = λ credentials. ok "";
  from_json = λ text. ok [];
  encode = λ text. text;
}

abbrev pub tools : ToolCrate Env
tools = record {
  store = store_crate;
  schemas = open_schemas;
  libraries = libraries;
  surroundings = surroundings;
  search = search_crate;
  parse_json = λ text. some empty_object;
  query_row = λ conn operation_id. returned_no_rows;
  pretty = λ value. "value";
  normal = λ name. name;
}

abbrev pub silent_wizard : WizardCrate Env
silent_wizard = record {
  ask_text = λ question w. (w, ok "");
  ask_password = λ question w. (w, ok "");
  ask_select = λ question choices w. (w, ok "");
  println = λ line w. w;
  head = λ url w. (w, false);
  env_var = λ w name. Dict.get name w;
  current_dir = λ w. (w, ok "/work");
  create_dir_all = λ path w. (w, ok tt);
  write = λ path text w. (w, ok tt);
  parent = λ path. none;
  to_yaml = λ value. ok "";
  to_json = λ credentials. ok "";
  pretty = λ value. "value";
  debug = λ text. text;
  to_uppercase = λ key. key;
  to_lowercase = λ text. text;
}

abbrev pub no_vault : Vault Env
no_vault = record {
  Contents = Dict Bytes;
  set_password = λ account value w. (w, err (unavailable "no service"));
  get_password = λ account w. err (unavailable "no service");
  delete_password = λ account w. (w, err (unavailable "no service"));
  generate_nonce = λ w. (w, twelve_bytes);
  env_var = λ w name. none;
  sha256 = λ bytes. bytes;
  encrypt = λ key nonce plain. none;
  decrypt = λ key nonce cipher. none;
  as_bytes = λ text. [];
  from_utf8 = λ bytes. ok "";
  read_fallback = λ w. none;
  create_config_dir = λ w. (w, ok tt);
  write_fallback = λ contents w. (w, ok tt);
  restrict_dir = λ w. (w, ok tt);
  restrict_file = λ w. (w, ok tt);
  to_json = λ store. ok store;
  from_json = λ contents. none;
}

abbrev pub commands : CommandCrate Env
commands = record {
  tools = tools;
  machine = machine_in;
  wizard = silent_wizard;
  vault = no_vault;
  to_lowercase = λ text. text;
  invalid_json = λ text. message "expected value";
  get_method = "GET";
  is_success = λ response. true;
  status_text = λ response. "200 OK";
}

abbrev pub state : State commands
state = record {
  stores = record { extracted = []; unique = 0; connections = [] };
  caches = no_caches open_schemas;
  auth_manager = own_manager commands (config_for stdio);
  world = [];
}

abbrev pub harness_crate : HarnessCrate Env
harness_crate = record {
  commands = commands;
  set_var = λ name value w. Dict.insert name value w;
  show = λ n. "4000";
  otel = record {
    SpanExporter = Unit {0};
    TracerProvider = String;
    build_exporter = λ w. (w, ok tt);
    build_provider = λ exporter name w. (w, name);
    shutdown = λ provider w. (Dict.insert "tracing" "down" w, ok tt);
    log_error = λ text e w. w;
  };
  is_terminal = λ w. false;
  is_filter = λ text. true;
  install = λ subscriber w. w;
  install_shutdown_handlers = λ w. w;
  open_store =
      λ path w. (w, if Dict.contains_key "gone" w then failed "failed to open" else passed);
  start_checks = λ checks w. w;
  abort_checks = λ w. Dict.insert "checks" "aborted" w;
  serve_http = λ config app_state server manager w. (w, ok tt);
  serve_stdio = λ server manager w. (w, ok tt);
}
