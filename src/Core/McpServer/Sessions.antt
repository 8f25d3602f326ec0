-- ===== src/Core/McpServer/Sessions.antt =====
-- core/mcp_server.rs: a process that serves tool calls one after another. rmcp hands each request to
-- the tool that it names. A call holds the lock of the authentication manager to its end, so that calls
-- do not overlap.
pub mod Refinement
pub mod Stability
use topdesk_mcp_rs.Auth.AuthManager.{AuthManager}
use topdesk_mcp_rs.Core.McpServer.{
  CallToolResult, SearchArgs, CallArgs, McpifyServer, ToolCrate, Process, search, get, call,
}
use topdesk_mcp_rs.Data.Store.{StoreState}
use topdesk_mcp_rs.Http.AuthExtractor.{HeaderMap}
use topdesk_mcp_rs.Shared.{String, Option, List, [], ◌∷◌}
use topdesk_mcp_rs.Validation.{Caches}

-- A tool call, with the headers of its HTTP request if it came by one.
pub data Request : Type 0 where
  search_request : SearchArgs → Request
  get_request : String → Request
  call_request : CallArgs → Option HeaderMap → Request

module _ {W : Type 0} (c : ToolCrate W) where
  unfoldable pub handle : McpifyServer → Request → Process c → Process c × CallToolResult
  handle server (search_request args) p = search c server args p
  handle server (get_request operation_id) p = get c server operation_id p
  handle server (call_request args headers) p = call c server args headers p

  unfoldable pub serve_each :
      McpifyServer → List Request → Process c → Process c × List CallToolResult
  unfolding handle
  serve_each server [] p = (p, [])
  serve_each server (request ∷ requests) p =
      let (p', answer) = handle server request p in
      let (last, answers) = serve_each server requests p' in (last, answer ∷ answers)
