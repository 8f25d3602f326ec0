-- ===== src/Tests/Fixtures.antt =====
-- Concrete libraries, configurations and data. The world is a number that grows with each action.
use Prim.Native.String.{◌++◌}
use topdesk_mcp_rs.Auth.AuthManager.{Surroundings, AuthManager}
use topdesk_mcp_rs.Auth.AuthManager.Basics.{basic_manager}
use topdesk_mcp_rs.Auth.AuthStrategy.{RequestCredentials}
use topdesk_mcp_rs.Core.ConfigSchema.{Config, Transport, basic, stdio}
use topdesk_mcp_rs.Core.CredentialStorage.{Vault, no_entry, unavailable, Bytes}
use topdesk_mcp_rs.Core.CredentialStorage.Hexadecimal.{is_byte}
use topdesk_mcp_rs.Core.Errors.{message}
use topdesk_mcp_rs.Core.McpServer.{ToolCrate, Process, McpifyServer}
use topdesk_mcp_rs.Core.ConfigManager.{Machine}
use topdesk_mcp_rs.Data.Endpoints.{EndpointRecord, returned_no_rows, found}
use topdesk_mcp_rs.Data.Store.{StoreCrate, StoreState}
use topdesk_mcp_rs.Json.{
  Value, string, array, nil, cons, object, field, end, empty_object, number, pos_int,
}
use topdesk_mcp_rs.Services.ApiClient.Dispatch.{HttpCrate}
use topdesk_mcp_rs.Services.ApiClient.Execute.{Libraries}
use topdesk_mcp_rs.Services.UrlBuilder.{UrlCrate}
use topdesk_mcp_rs.Shared.{
  ℕ, ◌+◌, String, Bool, true, false, Option, none, some, [], ◌∷◌, ok, err, str_eq, ltb, all,
  if◌then◌else◌,
}
use topdesk_mcp_rs.Tools.SearchTool.{SearchCrate}
use topdesk_mcp_rs.Shared.Dict.{Dict}
use topdesk_mcp_rs.Validation.{SchemaCrate, Caches}

abbrev pub config_for : Transport → Config
config_for transport = record {
  url = "https://api.example/";
  auth_method = basic;
  api_version = "general-1.2.0";
  log_level = "info";
  rate_limit = 100;
  timeout_ms = 30000;
  cache_size = 500;
  retry_attempts = 3;
  transport = transport;
  host = "127.0.0.1";
  port = 3000;
  cors_allow = none;
}

-- A URL is its text.
abbrev pub text_urls : UrlCrate
text_urls = record {
  Url = String;
  parse = λ text. ok text;
  join = λ base path. ok (base ++ path);
  append_pair = λ key value url. url ++ ("?" ++ (key ++ ("=" ++ value)));
  to_string = λ url. url;
}

-- The first request fails to be sent, every later one is answered.
abbrev pub flaky_http : HttpCrate ℕ
flaky_http = record {
  Method = String;
  Response = String;
  method_from_bytes = λ text. ok text;
  is_get_or_head = λ method. str_eq method "GET";
  send = λ request w. (w + 1, if ltb 0 w then ok "answer" else err (message "connection refused"));
  error_for_status = λ response. ok response;
  read_json = λ response w. (w, ok (string response));
}

abbrev pub libraries : Libraries ℕ
libraries = record {
  clock = λ w. w;
  url = text_urls;
  http = flaky_http;
  print = λ value. "{}";
  percent_encode = λ text. "41";
}

-- Both variables are set, and nothing is stored.
abbrev pub surroundings : Surroundings ℕ
surroundings = record {
  env_var = λ w name.
      if str_eq name "TOPDESK_MCP_USERNAME"
      then some "ann"
      else if str_eq name "TOPDESK_MCP_PASSWORD"
      then some "pw"
      else none;
  load_credential = λ account w. ok none;
  save_credential = λ account value w. (w, ok tt);
  to_json = λ credentials. ok "";
  from_json = λ text. ok [];
  encode = λ text. text;
}

abbrev pub manager : AuthManager
manager = basic_manager surroundings none

abbrev pub other_manager : AuthManager
other_manager = basic_manager surroundings (some (("authorization_header", "Basic b") ∷ []))

abbrev pub own_credentials : RequestCredentials
own_credentials = record { header_name = "Authorization"; value = "Basic own" }

-- One path parameter, and one in the query.
abbrev pub parameter_at : String → String → Value
parameter_at location name = object (field "in" (string location) (field "name" (string name) end))

abbrev pub endpoint : EndpointRecord
endpoint = record {
  operation_id = "getAsset";
  path = "/assets/{id}";
  method = "GET";
  summary = none;
  description = none;
  input_schema = object (
      field "parameters"
        (array (cons (parameter_at "path" "id") (cons (parameter_at "query" "page") nil))) end);
  output_schema = empty_object;
  auth_scheme_ref = none;
}

abbrev pub arguments : Value
arguments = object (field "id" (string "a/b") (field "page" (string "2") end))

-- A validator is the Boolean that it answers; the one that compiles refuses everything.
abbrev pub strict_schemas : SchemaCrate
strict_schemas = record {
  Validator = Bool;
  validator_for = λ schema. some false;
  permissive = true;
  is_valid = λ validator value. validator;
  iter_errors = λ validator value. "required" ∷ [];
  decode_schemas = λ file. some [];
}

abbrev pub open_schemas : SchemaCrate
open_schemas = record {
  Validator = Bool;
  validator_for = λ schema. some true;
  permissive = true;
  is_valid = λ validator value. validator;
  iter_errors = λ validator value. "required" ∷ [];
  decode_schemas = λ file. some [];
}

abbrev pub no_caches : (c : SchemaCrate) → Caches c
no_caches c = record { schemas = []; input = []; output = [] }

-- The first rename fails; bytes, files and connections are texts.
abbrev pub store_crate : StoreCrate ℕ
store_crate = record {
  Bytes = String;
  Disk = String;
  Conn = String;
  store_dir = "/tmp/topdesk-mcp-store";
  create_dir_all = λ dir w. (w, ok tt);
  decode_all = λ bytes. ok bytes;
  write = λ path bytes w. (w, ok tt);
  rename = λ from to w. (w + 1, if ltb 0 w then ok tt else err (message "sharing violation"));
  sleep_ms = λ ms w. w + ms;
  pid = 7;
  show = λ n. "0";
  open_read_only = λ path w. (w, ok path);
  backup_into_memory = λ disk w. (w, ok disk);
}

abbrev pub empty_state : StoreState store_crate
empty_state = record { extracted = []; unique = 0; connections = [] }

abbrev pub search_crate : SearchCrate String
search_crate = record {
  Embedding = String;
  embed = λ text. ok text;
  counts = λ conn. ok (1, 1);
  nearest = λ conn embedding limit. ok [];
  similarity_of = λ distance. distance;
}

abbrev pub tools : ToolCrate ℕ
tools = record {
  store = store_crate;
  schemas = open_schemas;
  libraries = libraries;
  surroundings = surroundings;
  search = search_crate;
  parse_json = λ text. some empty_object;
  query_row = λ conn operation_id.
      if str_eq operation_id "getAsset"
      then found (record {
        operation_id = ok "getAsset";
        path = ok "/assets/{id}";
        method = ok "GET";
        summary = ok none;
        description = ok none;
        input_schema = ok "{}";
        output_schema = ok "{}";
        auth_scheme_ref = ok none;
      })
      else returned_no_rows;
  pretty = λ value. "value";
  normal = λ name. name;
}

abbrev pub process : Process tools
process = record {
  stores = empty_state;
  caches = no_caches open_schemas;
  auth_manager = manager;
  world = 0;
}

abbrev pub server_for : Transport → McpifyServer
server_for transport = record { api_version = "general-1.2.0"; config = config_for transport }

-- One variable is set, and every file has the same two settings.
abbrev pub machine : Machine
machine = record {
  env_var = λ name. if str_eq name "TOPDESK_MCP_PORT" then some "4000" else none;
  read_to_string = λ path. some "port: 5000";
  parse_yaml = λ text. some (object (field "port" (number (pos_int 5000)) end));
  parse_u64 = λ text. some 4000;
  decode = λ value. ok (config_for stdio);
  install_dir = "/opt/topdesk-mcp";
}

-- What every nonce is.
abbrev pub twelve_bytes : Bytes
twelve_bytes = 1 ∷ 2 ∷ 3 ∷ 4 ∷ 5 ∷ 6 ∷ 7 ∷ 8 ∷ 9 ∷ 10 ∷ 11 ∷ 255 ∷ []

-- The world is the file; the keychain is not there, and the cipher gives what it is given.
abbrev pub vault : Vault (Option (Dict Bytes))
vault = record {
  Contents = Dict Bytes;
  set_password = λ account value w. (w, err (unavailable "no service"));
  get_password = λ account w. err (unavailable "no service");
  delete_password = λ account w. (w, err no_entry);
  generate_nonce = λ w. (w, twelve_bytes);
  env_var = λ w name. none;
  sha256 = λ bytes. bytes;
  encrypt = λ key nonce plain. if all is_byte plain then some plain else none;
  decrypt = λ key nonce cipher. some cipher;
  as_bytes = λ text. 112 ∷ 119 ∷ [];
  from_utf8 = λ bytes. ok "pw";
  read_fallback = λ w. w;
  create_config_dir = λ w. (w, ok tt);
  write_fallback = λ contents w. (some contents, ok tt);
  restrict_dir = λ w. (w, ok tt);
  restrict_file = λ w. (w, ok tt);
  to_json = λ store. ok store;
  from_json = λ contents. some contents;
}
