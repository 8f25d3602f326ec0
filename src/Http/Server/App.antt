-- ===== src/Http/Server/App.antt =====
-- http/server.rs, `start_http_server`: the routes with their middleware, and what is served where.
-- Matching a path, binding a socket and serving are libraries'; the state is the counters with the
-- world.
use Prim.Native.String.{◌++◌}
use topdesk_mcp_rs.Core.Errors.{AnyError}
use topdesk_mcp_rs.Http.AuthExtractor.{IpAddr, HeaderMap}
use topdesk_mcp_rs.Http.Metrics.{increment}
use topdesk_mcp_rs.Http.Server.{
  HttpServerConfig, AppState, Response, healthz, metrics_handler, unauthorized, auth_gate,
  set_cors_header, allowed_hosts,
}
use topdesk_mcp_rs.Http.Server.Gate.{may_pass, auth_gate-passes}
use topdesk_mcp_rs.Shared.{ℕ, String, false, Option, none, some, List, [], ◌∷◌, Result, ◌≡◌, refl}
use topdesk_mcp_rs.Shared.Actions.{Action, lift, ◌>>=◌}
use topdesk_mcp_rs.Shared.Dict.{Dict}

-- The route that a request's path matches; axum answers where none does.
pub data Route : Type 0 where
  healthz_route metrics_route mcp_route no_route : Route

-- What the routes need of the libraries: names of headers, sorting and printing for the metrics, and
-- the parsing of a header value; then axum's fallback and rmcp's service.
pub record AppCrate (W : Type 0) : Type 0 where
  pub normal : String → String
  pub sort : List String → List String
  pub show : ℕ → String
  pub parse_header : String → Option String
  pub fallback : W → W × Response
  pub mcp_service : W → W × Response

module _ {W : Type 0} (c : AppCrate W) where
  -- A response, with the counters and the world after it.
  abbrev pub Served : Type 0
  Served = (Dict ℕ × W) × Response

  -- The routes: the gate stands before the MCP service only.
  unfoldable pub route_request : Route → AppState → IpAddr → HeaderMap → Dict ℕ × W → Served
  route_request healthz_route state addr headers (counters, w) = ((counters, w), healthz state)
  route_request metrics_route state addr headers (counters, w) =
      let (counters', response) = metrics_handler c.sort c.show counters in
      ((counters', w), response)
  route_request mcp_route state addr headers (counters, w) =
      let (counters', w', response) =
        auth_gate c.normal state addr headers c.mcp_service counters w in
      ((counters', w'), response)
  route_request no_route state addr headers (counters, w) =
      let (w', response) = c.fallback w in ((counters, w'), response)

  -- The whole application: the CORS header is set around every route.
  unfoldable pub app : Option String → Route → AppState → IpAddr → HeaderMap → Dict ℕ × W → Served
  unfolding route_request
  app cors_allow route state addr headers s =
      set_cors_header c.parse_header cors_allow (route_request route state addr headers) s

  -- If the method takes its credentials from a header, and a caller may not pass the gate: the
  -- application answers a request for `/mcp` with 401, and with the configured origin where one is
  -- a header value. The request is counted, and the service and the world are left alone.
  pub app-refused :
      (origin value : String) (state : AppState) (addr : IpAddr) (headers : HeaderMap)
      (counters : Dict ℕ) (w : W)
      → state.header_location ≡ "header"
      → may_pass c.normal state addr headers ≡ false
      → c.parse_header origin ≡ some value
      → (app none mcp_route state addr headers (counters, w)
          ≡ ((increment "http_requests_total" counters, w), unauthorized))
        × (app (some origin) mcp_route state addr headers (counters, w) ≡ (
          (increment "http_requests_total" counters, w),
          record unauthorized { headers = ("Access-Control-Allow-Origin", value) ∷ [] },
        ))
  unfolding app set_cors_header route_request
  app-refused origin value state addr headers counters w here stopped parsed =
      let (counted, kept, refused) =
        auth_gate-passes c.normal state addr headers c.mcp_service counters w here in
      let alone = rw stopped at kept in
      let answer = rw stopped at refused in
      (
        rw (route_request, counted, alone, answer) refl,
        rw (app, set_cors_header, parsed, route_request, counted, alone, answer) refl,
      )

-- The sockets of the library, and the loop that serves the application on one.
pub record SocketCrate (W : Type 0) : Type 1 where
  pub Addr : Type 0
  pub Listener : Type 0
  pub parse_addr : String → Result AnyError Addr
  pub bind : Addr → Action W AnyError Listener
  pub serve :
      Listener
      → List String
      → (Route → IpAddr → HeaderMap → Dict ℕ × W → (Dict ℕ × W) × Response)
      → Action W AnyError (Unit {0})

-- The MCP service accepts the allowed hosts; the state and the origin stand in the application.
unfoldable pub start_http_server :
    {W : Type 0} (c : AppCrate W) (sockets : SocketCrate W)
    → HttpServerConfig
    → AppState
    → Action W AnyError (Unit {0})
start_http_server c sockets config state = do
  addr ← lift (sockets.parse_addr (config.host ++ (":" ++ c.show config.port)))
  listener ← sockets.bind addr
  sockets.serve listener (allowed_hosts c.show config)
      (λ route addr headers s. app c config.cors_allow route state addr headers s)
