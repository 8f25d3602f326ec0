-- ===== src/Core/McpServer/Sessions/Stability.antt =====
-- core/mcp_server.rs: the connection of a process, from the first access on.
use topdesk_mcp_rs.Core.McpServer.{
  CallToolResult, SearchArgs, CallArgs, McpifyServer, ToolCrate, Process, run_tool, lookup, search,
  get, call,
}
use topdesk_mcp_rs.Core.Errors.{AnyError}
use topdesk_mcp_rs.Core.McpServer.Handlers.{after_get, after_call}
use topdesk_mcp_rs.Core.McpServer.Sessions.{
  Request, search_request, get_request, call_request, handle, serve_each,
}
use topdesk_mcp_rs.Data.Store.{StoreState, cached_store_connection}
use topdesk_mcp_rs.Data.Store.Connections.{cached_store_connection_again}
use topdesk_mcp_rs.Http.AuthExtractor.{HeaderMap}
use topdesk_mcp_rs.Shared.{
  String, Option, List, [], ◌∷◌, Result, ok, ◌>>=◌, Result-cases, inl, inr, ◌≡◌, refl, ap, sym,
  subst, ◌∙◌,
}
use topdesk_mcp_rs.Tools.GetTool.{get_operation, require_endpoint}
use topdesk_mcp_rs.Tools.SearchTool.{search_operations}

module _ {W : Type 0} (c : ToolCrate W) where
  -- In these stores an access gives this connection and changes nothing, in every world.
  abbrev pub Pins : McpifyServer → c.store.Conn → StoreState c.store → Type 0
  Pins server conn stores =
      (w : W) → cached_store_connection c.store server.api_version stores w ≡ (stores, w, ok conn)

  -- What a search does once the connection is asked for.
  abbrev after_search :
      SearchArgs
      → Process c
      → StoreState c.store × W × Result AnyError c.store.Conn
      → Process c × CallToolResult
  after_search args p (stores, w, connected) = (
    record p { stores = stores; world = w },
    run_tool c (connected >>= λ conn. search_operations c.search conn args.query args.limit),
  )

  stores-after_call :
      (server : McpifyServer) (args : CallArgs) (headers : Option HeaderMap) (p : Process c)
      (conn : c.store.Conn)
      → (after_call c server args headers p (p.stores, p.world, ok conn)).0.stores ≡ p.stores
  stores-after_call server args headers p conn =
      elim (Result-cases (require_endpoint args.operation_id (lookup c conn args.operation_id))) [
        | inr (e, missing) ↦ rw (missing, after_call) refl
        | inl (endpoint, found) ↦ rw (found, after_call) refl
      ]

  stores-handle :
      (server : McpifyServer) (conn : c.store.Conn) (request : Request) (p : Process c)
      → Pins server conn p.stores
      → (handle c server request p).0.stores ≡ p.stores
  unfolding handle search get call
  stores-handle server conn (search_request args) p pins = ap (λ r. r.0) (pins p.world)
  stores-handle server conn (get_request operation_id) p pins = ap (λ r. r.0) (pins p.world)
  stores-handle server conn (call_request args headers) p pins =
      ap (λ r. (after_call c server args headers p r).0.stores) (pins p.world)
      ∙ stores-after_call server args headers p conn

  stores-serve_each :
      (server : McpifyServer) (conn : c.store.Conn) (requests : List Request) (p : Process c)
      → Pins server conn p.stores
      → (serve_each c server requests p).0.stores ≡ p.stores
  unfolding serve_each
  stores-serve_each server conn [] p pins = refl
  stores-serve_each server conn (request ∷ requests) p pins =
      let p' = (handle c server request p).0 in
      let same = stores-handle server conn request p pins in
      stores-serve_each server conn requests p' (subst (Pins server conn) (sym same) pins) ∙ same

  -- Once an access to the stores gave a process a connection, then after any requests, and in
  -- whatever world, a search and a look at an operation change nothing and answer from that
  -- connection: a store that is replaced on disk is not seen.
  pub serve_each-pinned :
      (server : McpifyServer) (requests : List Request) (p : Process c) (st : StoreState c.store)
      (w later : W) (conn : c.store.Conn)
      → cached_store_connection c.store server.api_version st w ≡ (p.stores, p.world, ok conn)
      → let last = record (serve_each c server requests p).0 { world = later } in
        ((args : SearchArgs)
          → search c server args last
            ≡ (last, run_tool c (search_operations c.search conn args.query args.limit)))
        × ((operation_id : String)
            → get c server operation_id last
              ≡ (last, run_tool c (get_operation operation_id (lookup c conn operation_id))))
  unfolding search get
  serve_each-pinned server requests p st w later conn e =
      let pins =
        cached_store_connection_again c.store server.api_version st p.stores w p.world conn e in
      let last = record (serve_each c server requests p).0 { world = later } in
      let kept : Pins server conn last.stores =
        subst (Pins server conn) (sym (stores-serve_each server conn requests p pins)) pins in
      (
        λ args. ap (after_search args last) (kept later),
        λ operation_id. ap (after_get c operation_id last) (kept later),
      )
