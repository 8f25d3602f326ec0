-- ===== src/Core/McpServer/Sessions/Refinement.antt =====
-- core/mcp_server.rs: the process against one that keeps no schemas and no validators.
use topdesk_mcp_rs.Auth.AuthManager.{AuthManager}
use topdesk_mcp_rs.Core.McpServer.{
  CallToolResult, CallArgs, McpifyServer, ToolCrate, Process, run_tool, lookup, search, get, call,
  request_credentials,
}
use topdesk_mcp_rs.Core.McpServer.Sessions.{
  Request, search_request, get_request, call_request, handle, serve_each,
}
use topdesk_mcp_rs.Data.Store.{StoreState, cached_store_connection}
use topdesk_mcp_rs.Http.AuthExtractor.{HeaderMap}
use topdesk_mcp_rs.Shared.{
  Option, List, [], ◌∷◌, ok, err, ◌>>=◌, Result-cases, inl, inr, ◌≡◌, refl, sym, ap, ◌∙◌,
}
use topdesk_mcp_rs.Tools.CallTool.Caching.{ideal_call, call_operation-ideal_call}
use topdesk_mcp_rs.Tools.GetTool.{require_endpoint}
use topdesk_mcp_rs.Validation.Coherence.{IsCoherent, empty-IsCoherent}

module _ {W : Type 0} (c : ToolCrate W) where
  -- A process without its caches of schemas and validators.
  pub record Uncached : Type 0 where
    pub stores : StoreState c.store
    pub auth_manager : AuthManager
    pub world : W

  abbrev pub uncached : Process c → Uncached
  uncached p = record { stores = p.stores; auth_manager = p.auth_manager; world = p.world }

  -- The same process, whose caches are new.
  abbrev pub restarted : Uncached → Process c
  restarted u = record {
    stores = u.stores;
    caches = record { schemas = []; input = []; output = [] };
    auth_manager = u.auth_manager;
    world = u.world;
  }

  abbrev pub seen_of : Process c × CallToolResult → Uncached × CallToolResult
  seen_of (p, answer) = (uncached p, answer)

  -- The specification: each request is served with new caches.
  unfoldable pub ideal_handle : McpifyServer → Request → Uncached → Uncached × CallToolResult
  ideal_handle server request u = seen_of (handle c server request (restarted u))

  unfoldable pub ideal_serve_each :
      McpifyServer → List Request → Uncached → Uncached × List CallToolResult
  unfolding ideal_handle
  ideal_serve_each server [] u = (u, [])
  ideal_serve_each server (request ∷ requests) u =
      let (u', answer) = ideal_handle server request u in
      let (last, answers) = ideal_serve_each server requests u' in (last, answer ∷ answers)

  -- A call of the server, with the specification of the call tool.
  unfoldable ideal_server_call :
      McpifyServer → CallArgs → Option HeaderMap → Uncached → Uncached × CallToolResult
  ideal_server_call server args headers u =
      let (stores, w, connected) =
        cached_store_connection c.store server.api_version u.stores u.world in
      elim (connected >>= λ conn.
      require_endpoint args.operation_id (lookup c conn args.operation_id)) [
        | err e ↦ (
          record { stores = stores; auth_manager = u.auth_manager; world = w },
          run_tool c (err e),
        )
        | ok endpoint ↦
            let (m, w', response) =
              ideal_call c.libraries c.surroundings c.schemas endpoint server.config
                args.operation_id args.arguments
                (request_credentials c.normal server.config headers) u.auth_manager w in
            (record { stores = stores; auth_manager = m; world = w' }, run_tool c response)
      ]

  call-ideal_server_call :
      (server : McpifyServer) (args : CallArgs) (headers : Option HeaderMap) (p : Process c)
      → IsCoherent c.schemas server.config.api_version p.caches
      → (seen_of (call c server args headers p)
          ≡ ideal_server_call server args headers (uncached p))
        × IsCoherent c.schemas server.config.api_version (call c server args headers p).0.caches
  unfolding call ideal_server_call
  call-ideal_server_call server args headers p h =
      let (stores, w, connected) =
        cached_store_connection c.store server.api_version p.stores p.world in
      elim (Result-cases (
        connected >>= λ conn.
        require_endpoint args.operation_id (lookup c conn args.operation_id))) [
          | inr (e, missing) ↦ rw (missing, call, ideal_server_call) (refl, h)
          | inl (endpoint, found) ↦
              let (same, kept) =
                call_operation-ideal_call c.libraries c.surroundings c.schemas endpoint
                  server.config args.operation_id args.arguments
                  (request_credentials c.normal server.config headers)
                  (record { caches = p.caches; auth_manager = p.auth_manager; world = w }) h in
              rw (found, call, ideal_server_call)
                (
                  ap
                      (λ r. (
                        record { stores = stores; auth_manager = r.0; world = r.1 },
                        run_tool c r.2,
                      ))
                      same,
                  kept,
                )
        ]

  handle-ideal_handle :
      (server : McpifyServer) (request : Request) (p : Process c)
      → IsCoherent c.schemas server.config.api_version p.caches
      → (seen_of (handle c server request p) ≡ ideal_handle server request (uncached p))
        × IsCoherent c.schemas server.config.api_version (handle c server request p).0.caches
  unfolding handle ideal_handle search get
  handle-ideal_handle server (search_request args) p h = (refl, h)
  handle-ideal_handle server (get_request operation_id) p h = (refl, h)
  handle-ideal_handle server (call_request args headers) p h =
      let (same, kept) = call-ideal_server_call server args headers p h in
      let (again, _) =
        call-ideal_server_call server args headers (restarted (uncached p))
          (empty-IsCoherent c.schemas server.config.api_version) in
      (same ∙ sym again, kept)

  -- If the caches hold what the schemas of the server's version compile to, as those of a new
  -- process do: whatever requests it serves, a process gives the answers, and leaves the stores,
  -- the credentials and the world, of one that forgets its schemas and validators before each.
  pub serve_each-ideal_serve_each :
      (server : McpifyServer) (requests : List Request) (p : Process c)
      → IsCoherent c.schemas server.config.api_version p.caches
      → let (last, answers) = serve_each c server requests p in
        (uncached last, answers) ≡ ideal_serve_each server requests (uncached p)
  unfolding serve_each ideal_serve_each
  serve_each-ideal_serve_each server [] p h = refl
  serve_each-ideal_serve_each server (request ∷ requests) p h =
      let (same, kept) = handle-ideal_handle server request p h in
      let (p', answer) = handle c server request p in
      let rest = serve_each-ideal_serve_each server requests p' kept in
      ap (λ r. (r.0, answer ∷ r.1)) rest
      ∙ ap
          (λ r. let (last, answers) = ideal_serve_each server requests r.0 in (last, r.1 ∷ answers))
          same
