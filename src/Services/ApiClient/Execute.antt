-- ===== src/Services/ApiClient/Execute.antt =====
-- services/api_client.rs, `ApiClient`: the state of a client, and `execute`.
pub mod Isolation
pub mod Wire
use topdesk_mcp_rs.Auth.AuthManager.{Surroundings, AuthManager, apply_auth_headers}
use topdesk_mcp_rs.Auth.AuthStrategy.{RequestCredentials}
use topdesk_mcp_rs.Core.CircuitBreaker as Breaker
use topdesk_mcp_rs.Core.CircuitBreaker.{CircuitBreaker, CircuitBreakerError, breaker_open, inner}
use topdesk_mcp_rs.Core.ConfigSchema.{Config}
use topdesk_mcp_rs.Core.Errors.{AnyError, mcpify, message}
use topdesk_mcp_rs.Core.RateLimiter
use topdesk_mcp_rs.Core.RateLimiter.{RateLimiter, acquire}
use topdesk_mcp_rs.Data.Endpoints.{EndpointRecord}
use topdesk_mcp_rs.Json.{Value, as_object}
use topdesk_mcp_rs.Services.ApiClient.Dispatch.{HttpCrate, dispatch}
use topdesk_mcp_rs.Services.ApiClient.Params.{pick_by_location, apply_path_params}
use topdesk_mcp_rs.Services.UrlBuilder.{UrlCrate, build_api_url}
use topdesk_mcp_rs.Shared.{ℕ, String, Option, none, some, List, [], ◌∷◌, Result, ok, err, ◌>>=◌}
use topdesk_mcp_rs.Shared.Dict
use topdesk_mcp_rs.Shared.Dict.{Dict}

-- Time is in milliseconds.
pub record ApiClient : Type 0 where
  pub config : Config
  pub circuit_breaker : CircuitBreaker
  pub rate_limiter : RateLimiter

unfoldable pub new : Config → ApiClient
new config = record {
  config = config;
  circuit_breaker = Breaker.new 5 30000;
  rate_limiter = RateLimiter.new config.rate_limit 1000;
}

-- What the client asks of its surroundings, besides those of the authentication.
pub record Libraries (W : Type 0) : Type 1 where
  pub clock : W → ℕ
  pub url : UrlCrate
  pub http : HttpCrate W
  pub print : Value → String
  pub percent_encode : String → String

-- `args.as_object().unwrap_or(&empty)`
abbrev pub args_map_of : Value → Dict Value
args_map_of args = elim (as_object args) [ none ↦ [] | some m ↦ m ]

unfoldable pub base_headers : Dict String
base_headers =
    Dict.insert "User-Agent" "mcpify-client/0.1.0 (generated by mcpify)"
      (Dict.insert "Content-Type" "application/json" [])

-- The `match` on the breaker's answer.
abbrev pub flatten_error : Result (CircuitBreakerError AnyError) Value → Result AnyError Value
flatten_error (ok value) = ok value
flatten_error (err breaker_open) = err (message "circuit breaker is open")
flatten_error (err (inner e)) = err e

module _ {W : Type 0} (l : Libraries W) (s : Surroundings W) where
  -- The URL of the call.
  unfoldable pub target : Config → EndpointRecord → Dict Value → Result AnyError String
  target config endpoint args =
      build_api_url l.url config.url (apply_path_params l.print l.percent_encode endpoint args)
        (pick_by_location l.print endpoint args "query")

  -- From the authentication on: the headers, and the call inside the breaker.
  unfoldable pub send_authenticated :
      ApiClient
      → EndpointRecord
      → Dict Value
      → String
      → AuthManager
      → Option RequestCredentials
      → W
      → ApiClient × AuthManager × W × Result AnyError Value
  send_authenticated c endpoint args url m given w =
      let headers = Dict.extend base_headers (pick_by_location l.print endpoint args "header") in
      let (m', w', found) = apply_auth_headers s m headers c.config.transport given w in
      elim found [
        | err e ↦ (c, m', w', err e)
        | ok ready ↦
            let (b, w'', answer) =
              Breaker.execute l.clock
                (dispatch l.http c.config endpoint.method url (Dict.get "body" args) ready)
                c.circuit_breaker w' in
            (record c { circuit_breaker = b }, m', w'', flatten_error answer)
      ]

  unfoldable pub execute :
      ApiClient
      → EndpointRecord
      → Value
      → AuthManager
      → Option RequestCredentials
      → W
      → ApiClient × AuthManager × W × Result AnyError Value
  unfolding target send_authenticated
  execute c endpoint args m given w =
      let (r, granted) = acquire c.rate_limiter (l.clock w) in
      let c' = record c { rate_limiter = r } in
      elim granted [
        | err e ↦ (c', m, w, err (mcpify e))
        | ok _ ↦ elim (target c.config endpoint (args_map_of args)) [
          | err e ↦ (c', m, w, err e)
          | ok url ↦ send_authenticated c' endpoint (args_map_of args) url m given w
        ]
      ]
