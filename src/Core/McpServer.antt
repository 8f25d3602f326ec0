-- ===== src/Core/McpServer.antt =====
-- core/mcp_server.rs: the three tools of the server, over the shared state of the process. rmcp, the
-- queries over a connection and pretty-printing are libraries'.
pub mod Handlers
pub mod Sessions
use topdesk_mcp_rs.Auth.AuthManager.{Surroundings, AuthManager, header_location_for}
use topdesk_mcp_rs.Auth.AuthStrategy.{RequestCredentials}
use topdesk_mcp_rs.Core.ConfigSchema.{Config}
use topdesk_mcp_rs.Core.Errors.{AnyError, any_to_string}
use topdesk_mcp_rs.Data.Endpoints.{EndpointRecord, QueryAnswer, get_endpoint}
use topdesk_mcp_rs.Data.Store.{StoreCrate, StoreState, cached_store_connection}
use topdesk_mcp_rs.Http.AuthExtractor.{HeaderMap, extract_request_credentials}
use topdesk_mcp_rs.Json.{Value, empty_object}
use topdesk_mcp_rs.Services.ApiClient.Execute.{Libraries}
use topdesk_mcp_rs.Shared.{
  ℕ, String, Bool, true, false, Option, none, some, Result, ok, err, to_option, ◌>>=◌,
}
use topdesk_mcp_rs.Tools.CallTool.{CallState, call_operation}
use topdesk_mcp_rs.Tools.GetTool.{get_operation, require_endpoint}
use topdesk_mcp_rs.Tools.SearchTool.{SearchCrate, search_operations}
use topdesk_mcp_rs.Validation.{SchemaCrate, Caches}

-- The result of a tool: one block of text, marked as an error or not.
pub record CallToolResult : Type 0 where
  pub is_error : Bool
  pub text : String

abbrev pub default_search_limit : ℕ
default_search_limit = 5

abbrev pub default_call_arguments : Value
default_call_arguments = empty_object

pub record SearchArgs : Type 0 where
  pub query : String
  pub limit : ℕ

pub record CallArgs : Type 0 where
  pub operation_id : String
  pub arguments : Value

pub record McpifyServer : Type 0 where
  pub api_version : String
  pub config : Config

-- What the server says of itself; the name and version of the build are rmcp's.
pub record ServerInfo : Type 0 where
  pub has_tools : Bool
  pub has_prompts : Bool
  pub protocol_version : String
  pub instructions : String

abbrev pub get_info : ServerInfo
get_info = record {
  has_tools = true;
  has_prompts = true;
  protocol_version = "2024-11-05";
  instructions =
      "Exposes exactly 3 tools -- search, get, call -- backed by an embedded semantic database, so you never need the full API surface in context. Also exposes guided MCP prompts (start with `topdesk-menu`) that turn TOPdesk domain workflows into step-by-step playbooks over those 3 tools -- only one TOPdesk API-version catalog is active per running server instance; each prompt tells you how to check and what to do if the one you need isn't loaded.";
}

-- A missing field takes its default.
unfoldable pub search_args : String → Option ℕ → SearchArgs
search_args query none = record { query = query; limit = default_search_limit }
search_args query (some limit) = record { query = query; limit = limit }

unfoldable pub call_args : String → Option Value → CallArgs
call_args operation_id none = record {
  operation_id = operation_id;
  arguments = default_call_arguments;
}
call_args operation_id (some arguments) = record {
  operation_id = operation_id;
  arguments = arguments;
}

-- `None` of the headers is the stdio transport, where a call has no request.
unfoldable pub request_credentials :
    (String → String) → Config → Option HeaderMap → Option RequestCredentials
request_credentials normal config none = none
request_credentials normal config (some headers) =
    let (header_location, header_name) = header_location_for config.auth_method in
    to_option (extract_request_credentials normal headers header_location header_name)

-- The libraries of the tools, together.
pub record ToolCrate (W : Type 0) : Type 1 where
  pub store : StoreCrate W
  pub schemas : SchemaCrate
  pub libraries : Libraries W
  pub surroundings : Surroundings W
  pub search : SearchCrate (store.Conn)
  pub parse_json : String → Option Value
  pub query_row : store.Conn → String → QueryAnswer
  pub pretty : Value → String
  pub normal : String → String

module _ {W : Type 0} (c : ToolCrate W) where
  -- What the tools share: the stores, and what a call may change.
  pub record Process : Type 0 where
    pub stores : StoreState c.store
    pub caches : Caches c.schemas
    pub auth_manager : AuthManager
    pub world : W

  unfoldable pub run_tool : Result AnyError Value → CallToolResult
  run_tool (ok value) = record { is_error = false; text = c.pretty value }
  run_tool (err e) = record { is_error = true; text = any_to_string e }

  -- The connection of the server's version, and the process after it.
  abbrev pub connect : McpifyServer → Process → Process × Result AnyError (c.store.Conn)
  connect server p =
      let (stores, w, conn) = cached_store_connection c.store server.api_version p.stores p.world in
      (record p { stores = stores; world = w }, conn)

  unfoldable pub search : McpifyServer → SearchArgs → Process → Process × CallToolResult
  unfolding run_tool
  search server args p =
      let (p', connected) = connect server p in
      (p', run_tool (connected >>= λ conn. search_operations c.search conn args.query args.limit))

  abbrev pub lookup : c.store.Conn → String → Result AnyError (Option EndpointRecord)
  lookup conn operation_id = get_endpoint c.parse_json (c.query_row conn operation_id)

  unfoldable pub get : McpifyServer → String → Process → Process × CallToolResult
  unfolding run_tool
  get server operation_id p =
      let (p', connected) = connect server p in
      (p', run_tool (connected >>= λ conn. get_operation operation_id (lookup conn operation_id)))

  -- The call itself, once the operation's record is known.
  abbrev pub call_endpoint :
      McpifyServer
      → CallArgs
      → Option RequestCredentials
      → Process
      → EndpointRecord
      → Process × CallToolResult
  call_endpoint server args given p endpoint =
      let (st, response) =
        call_operation c.libraries c.surroundings c.schemas endpoint server.config args.operation_id
          args.arguments given
          (record { caches = p.caches; auth_manager = p.auth_manager; world = p.world }) in
      (
        record p { caches = st.caches; auth_manager = st.auth_manager; world = st.world },
        run_tool response,
      )

  unfoldable pub call :
      McpifyServer → CallArgs → Option HeaderMap → Process → Process × CallToolResult
  unfolding run_tool
  call server args headers p =
      let (p', connected) = connect server p in
      elim (connected >>= λ conn.
      require_endpoint args.operation_id (lookup conn args.operation_id)) [
        | err e ↦ (p', run_tool (err e))
        | ok endpoint ↦
            call_endpoint server args (request_credentials c.normal server.config headers) p'
              endpoint
      ]
