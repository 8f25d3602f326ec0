-- ===== src/Http/Server/Gate.antt =====
-- http/server.rs: who passes the gate, and what the health endpoint says.
use topdesk_mcp_rs.Core.ComponentRegistry.{snapshot}
use topdesk_mcp_rs.Core.ComponentRegistry.Severity.{worst, rank-overall_status}
use topdesk_mcp_rs.Http.AuthExtractor.{
  IpAddr, HeaderMap, usable, is_localhost, extract_request_credentials,
}
use topdesk_mcp_rs.Http.Metrics.{increment}
use topdesk_mcp_rs.Http.Server.{AppState, Response, healthz, unauthorized, auth_gate}
use topdesk_mcp_rs.Shared.{ℕ, String, Bool, ◌≡◌, ◌↔◌, arith, if◌then◌else◌, eq_iff, ◌||◌}
use topdesk_mcp_rs.Shared.Dict
use topdesk_mcp_rs.Shared.Dict.{Dict}

-- The health endpoint answers 503 exactly when a critical component is unhealthy (the worst
-- severity of all components is 2), and 200 otherwise.
pub healthz-status :
    (state : AppState) → ((healthz state).status ≡ 503) ↔ (worst (snapshot state.registry) ≡ 2)
unfolding healthz
healthz-status state = ground (arith, rank-overall_status state.registry)

-- Whether a request may pass: it is local, or it carries the header that the authentication
-- method needs, as a text that is not empty.
abbrev pub may_pass : (String → String) → AppState → IpAddr → HeaderMap → Bool
may_pass normal state addr headers =
    is_localhost addr || Dict.is_some (usable (Dict.get (normal state.header_name) headers))

module _ {W : Type 0} (normal : String → String) where
  -- Where the method takes its credentials from a header: each request is counted, a request
  -- reaches the handler exactly when it is local or carries the header as a text that is not
  -- empty, and any other is answered with 401 while the world is left alone.
  pub auth_gate-passes :
      (state : AppState) (addr : IpAddr) (headers : HeaderMap) (next : W → W × Response)
      (counters : Dict ℕ) (w : W)
      → state.header_location ≡ "header"
      → ((auth_gate normal state addr headers next counters w).0
          ≡ increment "http_requests_total" counters)
        × ((auth_gate normal state addr headers next counters w).1
            ≡ (if may_pass normal state addr headers then (next w).0 else w))
        × ((auth_gate normal state addr headers next counters w).2
            ≡ (if may_pass normal state addr headers then (next w).1 else unauthorized))
  unfolding auth_gate extract_request_credentials
  auth_gate-passes state addr headers next counters w here =
      ground (arith, eq_iff state.header_location "header")
