-- ===== src/Tests/Server.antt =====
-- The server, its endpoints and its prompts at concrete inputs.

use topdesk_mcp_rs.Core.ConfigSchema.{http}
use topdesk_mcp_rs.Core.McpServer.{CallArgs, call}
use topdesk_mcp_rs.Core.McpServer.Handlers.{call_http}
use topdesk_mcp_rs.Core.Sanitizer.{sanitize}
use topdesk_mcp_rs.Core.Sanitizer.Redaction.{IsClean, sanitize-eq_iff}
use topdesk_mcp_rs.Http.AuthExtractor.{v4, HeaderMap, is_localhost}
use topdesk_mcp_rs.Http.Metrics.{increment}
use topdesk_mcp_rs.Http.Server.App.{AppCrate, mcp_route, app, app-refused}
use topdesk_mcp_rs.Http.Server.{AppState, Response, auth_gate, unauthorized, text}
use topdesk_mcp_rs.Http.Server.Gate.{auth_gate-passes}
use topdesk_mcp_rs.Json.{Value, object, field, string, end}
use topdesk_mcp_rs.Shared.{ℕ, ◌+◌, String, none, some, [], ◌∷◌, ◌≡◌, refl, ◌↔◌}
use topdesk_mcp_rs.Tests.Fixtures.{tools, process, server_for, manager, other_manager, arguments}

abbrev known_call : CallArgs
known_call = record { operation_id = "getAsset"; arguments = arguments }

-- Headers of a request that carries its own credentials.
abbrev own_headers : HeaderMap
own_headers = ("Authorization", some "Basic own") ∷ []

call_http_example :
    ((call tools (server_for http) known_call (some own_headers) process).0.auth_manager ≡ manager)
    × ((call tools
          (server_for http)
          known_call
          (some own_headers)
          (record process { auth_manager = other_manager })).1
        ≡ (call tools (server_for http) known_call (some own_headers) process).1)
call_http_example =
    call_http tools (server_for http) known_call (some own_headers) process other_manager refl

abbrev payload : Value
payload = object (field "Password" (string "pw") (field "id" (string "7") end))

-- The lower-casing of the keys at hand.
abbrev lower : String → String
lower key = "password"

sanitize-eq_iff_example : (sanitize lower payload ≡ payload) ↔ IsClean lower payload
sanitize-eq_iff_example = sanitize-eq_iff lower payload

abbrev state : AppState
state = record {
  registry = record { components = [] };
  header_location = "header";
  header_name = "Authorization";
}

-- The handler that follows counts a call and answers 200.
abbrev handler : ℕ → ℕ × Response
handler w = (w + 1, record { status = 200; headers = []; body = text "answer" })

auth_gate-passes_example :
    ((auth_gate (λ name. name) state (v4 10 0 0 1) own_headers handler [] 0).0
      ≡ increment "http_requests_total" [])
    × ((auth_gate (λ name. name) state (v4 10 0 0 1) own_headers handler [] 0).1 ≡ 1)
    × ((auth_gate (λ name. name) state (v4 10 0 0 1) own_headers handler [] 0).2
        ≡ record { status = 200; headers = []; body = text "answer" })
unfolding is_localhost
auth_gate-passes_example =
    auth_gate-passes (λ name. name) state (v4 10 0 0 1) own_headers handler [] 0 refl

abbrev application : AppCrate ℕ
application = record {
  normal = λ name. name;
  sort = λ keys. keys;
  show = λ n. "1";
  parse_header = λ origin. some origin;
  fallback = handler;
  mcp_service = handler;
}

app-refused_example :
    (app application none mcp_route state (v4 10 0 0 1) [] ([], 0)
      ≡ ((increment "http_requests_total" [], 0), unauthorized))
    × (app application (some "https://app.example") mcp_route state (v4 10 0 0 1) [] ([], 0) ≡ (
      (increment "http_requests_total" [], 0),
      record unauthorized { headers = ("Access-Control-Allow-Origin", "https://app.example") ∷ [] },
    ))
unfolding is_localhost
app-refused_example =
    app-refused application "https://app.example" "https://app.example" state (v4 10 0 0 1) [] [] 0
      refl refl refl
