-- ===== src/Core/McpServer/Handlers.antt =====
-- core/mcp_server.rs: what the tools answer, and what they leave alone.
use Prim.Native.String.{◌++◌}
use topdesk_mcp_rs.Auth.AuthManager.{AuthManager}
use topdesk_mcp_rs.Core.ConfigSchema.{http}
use topdesk_mcp_rs.Core.Errors.{AnyError, any_to_string, to_string}
use topdesk_mcp_rs.Core.McpServer.{
  CallToolResult, CallArgs, McpifyServer, ToolCrate, Process, run_tool, lookup, get, call,
  call_endpoint, request_credentials,
}
use topdesk_mcp_rs.Data.Endpoints.{returned_no_rows, get_endpoint}
use topdesk_mcp_rs.Data.Store.{StoreState, cached_store_connection}
use topdesk_mcp_rs.Http.AuthExtractor.{HeaderMap}
use topdesk_mcp_rs.Shared.{
  String, true, Option, Result, ok, err, ◌>>=◌, Result-cases, inl, inr, ◌≡◌, refl, ap, sym, ◌∙◌,
}
use topdesk_mcp_rs.Tools.CallTool.Isolation.{call_operation_http}
use topdesk_mcp_rs.Tools.GetTool.{get_operation, require_endpoint}

module _ {W : Type 0} (c : ToolCrate W) where
  -- What `get` and `call` do once the connection is asked for.
  abbrev pub after_get :
      String
      → Process c
      → StoreState c.store × W × Result AnyError c.store.Conn
      → Process c × CallToolResult
  after_get op p (stores, w, connected) = (
    record p { stores = stores; world = w },
    run_tool c (connected >>= λ conn. get_operation op (lookup c conn op)),
  )

  abbrev pub after_call :
      McpifyServer
      → CallArgs
      → Option HeaderMap
      → Process c
      → StoreState c.store × W × Result AnyError c.store.Conn
      → Process c × CallToolResult
  after_call server args headers p (stores, w, connected) =
      let p' = record p { stores = stores; world = w } in
      elim (connected >>= λ conn.
      require_endpoint args.operation_id (lookup c conn args.operation_id)) [
        | err e ↦ (p', run_tool c (err e))
        | ok endpoint ↦
            call_endpoint c server args (request_credentials c.normal server.config headers) p'
              endpoint
      ]

  -- When the connection of the server's version is there and the store has no row for the
  -- operation, `get` and `call` answer with the same error, which names the operation. Neither
  -- changes more than the connection did: nothing is validated, authenticated or sent.
  pub call_unknown :
      (server : McpifyServer) (args : CallArgs) (headers : Option HeaderMap) (p : Process c)
      (stores : StoreState c.store) (w : W) (conn : c.store.Conn)
      → cached_store_connection c.store server.api_version p.stores p.world ≡ (stores, w, ok conn)
      → c.query_row conn args.operation_id ≡ returned_no_rows
      → (call c server args headers p ≡ (
        record p { stores = stores; world = w },
        record { is_error = true; text = "unknown operationId '" ++ (args.operation_id ++ "'") },
      ))
        × (get c server args.operation_id p ≡ call c server args headers p)
  unfolding call get get_operation run_tool get_endpoint any_to_string to_string
  call_unknown server args headers p stores w conn connected missing =
      let with_call = ap (after_call server args headers p) connected in
      let with_get = ap (after_get args.operation_id p) connected in
      let unknown = with_call ∙ rw (missing, after_call, get_endpoint, run_tool) refl in
      (
        unknown,
        with_get
            ∙ rw (missing, after_get, get_operation, get_endpoint, run_tool) refl
            ∙ sym unknown,
      )

  -- With the HTTP transport configured, a call leaves the shared authentication manager as it is,
  -- and its result does not depend on that manager: sessions do not see each other's credentials.
  pub call_http :
      (server : McpifyServer) (args : CallArgs) (headers : Option HeaderMap) (p : Process c)
      (m : AuthManager)
      → server.config.transport ≡ http
      → ((call c server args headers p).0.auth_manager ≡ p.auth_manager)
        × ((call c server args headers (record p { auth_manager = m })).1
            ≡ (call c server args headers p).1)
  unfolding call
  call_http server args headers p m h =
      let (stores, w, connected) =
        cached_store_connection c.store server.api_version p.stores p.world in
      let given = request_credentials c.normal server.config headers in
      elim (Result-cases (
        connected >>= λ conn.
        require_endpoint args.operation_id (lookup c conn args.operation_id))) [
          | inr (e, missing) ↦ rw (missing, call) (refl, refl)
          | inl (endpoint, found) ↦
              let (kept, same) =
                call_operation_http c.libraries c.surroundings c.schemas endpoint server.config
                  args.operation_id args.arguments given
                  (record { caches = p.caches; auth_manager = p.auth_manager; world = w }) m h in
              rw (found, call) (kept, ap (run_tool c) same)
        ]
