-- ===== src/Http/Server.antt =====
-- http/server.rs: the handlers and the middleware. A handler that follows (`next.run`) is a function
-- on the world; parsing a header value is a library's.
pub mod Gate
pub mod App
use Prim.Native.String.{◌++◌}
use topdesk_mcp_rs.Core.ComponentRegistry.{
  ComponentStatus, healthy, degraded, unhealthy, ComponentRegistry, is_unhealthy, overall_status,
  snapshot,
}
use topdesk_mcp_rs.Http.AuthExtractor.{IpAddr, HeaderMap, is_localhost, extract_request_credentials}
use topdesk_mcp_rs.Http.Metrics.{increment, render_metrics}
use topdesk_mcp_rs.Json.{Value, string, number, pos_int, object, field, end}
use topdesk_mcp_rs.Shared.{
  ℕ, String, Bool, true, false, not, ◌&&◌, Option, none, some, List, [], ◌∷◌, ◌++◌ as ◌+++◌,
  if◌then◌else◌, length, is_ok,
}
use topdesk_mcp_rs.Shared.Dict
use topdesk_mcp_rs.Shared.Dict.{Dict}

pub record HttpServerConfig : Type 0 where
  pub host : String
  pub port : ℕ
  pub cors_allow : Option String

pub record AppState : Type 0 where
  pub registry : ComponentRegistry
  pub header_location : String
  pub header_name : String

pub data ResponseBody : Type 0 where
  json : Value → ResponseBody
  text : String → ResponseBody

pub record Response : Type 0 where
  pub status : ℕ
  pub headers : Dict String
  pub body : ResponseBody

-- `{:?}` of a status.
abbrev pub debug_status : ComponentStatus → String
debug_status healthy = "Healthy"
debug_status degraded = "Degraded"
debug_status unhealthy = "Unhealthy"

unfoldable pub healthz : AppState → Response
healthz state =
    let status = overall_status state.registry in
    record {
      status = if is_unhealthy status then 503 else 200;
      headers = [];
      body = json (
          object (
            field "status" (string (debug_status status))
              (field "components" (number (pos_int (length (snapshot state.registry)))) end)));
    }

unfoldable pub metrics_handler :
    (List String → List String) → (ℕ → String) → Dict ℕ → Dict ℕ × Response
metrics_handler sort show counters =
    let counters' = increment "http_requests_total" counters in
    (
      counters',
      record { status = 200; headers = []; body = text (render_metrics sort show counters') },
    )

abbrev pub unauthorized : Response
unauthorized = record {
  status = 401;
  headers = [];
  body = json (
      object
        (field "error" (string "missing or invalid credentials for this API's auth method") end));
}

module _ {W : Type 0} (normal : String → String) where
  unfoldable pub auth_gate :
      AppState → IpAddr → HeaderMap → (W → W × Response) → Dict ℕ → W → Dict ℕ × W × Response
  auth_gate state addr headers next counters w =
      let counters' = increment "http_requests_total" counters in
      if not (is_localhost addr)
        && not (
            is_ok
              (extract_request_credentials normal headers state.header_location state.header_name))
      then (counters', w, unauthorized)
      else let (w', response) = next w in (counters', w', response)

-- `parse` gives the header value, if the origin is one.
unfoldable pub set_cors_header :
    {W : Type 0} → (String → Option String) → Option String → (W → W × Response) → W → W × Response
set_cors_header parse cors_allow next w =
    let (w', response) = next w in
    elim cors_allow [
      | none ↦ (w', response)
      | some origin ↦ elim (parse origin) [
        | none ↦ (w', response)
        | some value ↦ (
          w',
          record response {
            headers = Dict.insert "Access-Control-Allow-Origin" value response.headers;
          },
        )
      ]
    ]

-- The hosts that the MCP service accepts.
unfoldable pub allowed_hosts : (ℕ → String) → HttpServerConfig → List String
allowed_hosts show config =
    "localhost"
    ∷ "127.0.0.1"
    ∷ "::1"
    ∷ config.host
    ∷ (config.host ++ (":" ++ show config.port))
    ∷ []
