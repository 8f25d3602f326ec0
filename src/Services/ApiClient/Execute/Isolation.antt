-- ===== src/Services/ApiClient/Execute/Isolation.antt =====
-- services/api_client.rs: `execute` on HTTP, and the shared authentication manager.
use topdesk_mcp_rs.Auth.AuthManager.{Surroundings, AuthManager, apply_auth_headers}
use topdesk_mcp_rs.Auth.AuthStrategy.{RequestCredentials}
use topdesk_mcp_rs.Core.ConfigSchema.{Transport, stdio, http}
use topdesk_mcp_rs.Core.RateLimiter.{acquire}
use topdesk_mcp_rs.Data.Endpoints.{EndpointRecord}
use topdesk_mcp_rs.Json.{Value}
use topdesk_mcp_rs.Services.ApiClient.Execute.{
  ApiClient, Libraries, args_map_of, send_authenticated, execute, target,
}
use topdesk_mcp_rs.Shared.{
  String, Option, none, some, Result, ok, err, Result-cases, inl, inr, ◌≡◌, refl, ap,
}
use topdesk_mcp_rs.Core.CircuitBreaker as Breaker
use topdesk_mcp_rs.Services.ApiClient.Dispatch.{dispatch}
use topdesk_mcp_rs.Services.ApiClient.Execute.{base_headers, flatten_error}
use topdesk_mcp_rs.Services.ApiClient.Params.{pick_by_location}
use topdesk_mcp_rs.Core.Errors.{AnyError, message}
use topdesk_mcp_rs.Shared.Dict
use topdesk_mcp_rs.Shared.Dict.{Dict}

module _ {W : Type 0} (l : Libraries W) (s : Surroundings W) where
  -- The headers on HTTP, which neither the manager nor the world takes part in.
  relayed_headers : Dict String → Option RequestCredentials → Result AnyError (Dict String)
  relayed_headers headers none = err (
      message
        "no credentials were supplied on this HTTP request; local config/env/keychain is never used as a fallback over HTTP transport")
  relayed_headers headers (some given) = ok (Dict.insert given.header_name given.value headers)

  auth_http :
      (headers : Dict String) (t : Transport) (given : Option RequestCredentials) (w : W)
      → t ≡ http
      → (m : AuthManager)
      → apply_auth_headers s m headers t given w ≡ (m, w, relayed_headers headers given)
  unfolding apply_auth_headers relayed_headers
  auth_http headers http none w h m = refl
  auth_http headers http (some given) w h m = refl
  auth_http headers stdio given w h m = cc

  -- What follows the authentication, on its result.
  abbrev after_auth :
      ApiClient
      → EndpointRecord
      → Dict Value
      → String
      → AuthManager × W × Result AnyError (Dict String)
      → ApiClient × AuthManager × W × Result AnyError Value
  after_auth c endpoint args url (m, w, err e) = (c, m, w, err e)
  after_auth c endpoint args url (m, w, ok ready) =
      let (b, w', answer) =
        Breaker.execute l.clock
          (dispatch l.http c.config endpoint.method url (Dict.get "body" args) ready)
          c.circuit_breaker w in
      (record c { circuit_breaker = b }, m, w', flatten_error answer)

  send_authenticated-after :
      (c : ApiClient) (endpoint : EndpointRecord) (args : Dict Value) (url : String)
      (m : AuthManager) (given : Option RequestCredentials) (w : W)
      (r : AuthManager × W × Result AnyError (Dict String))
      → apply_auth_headers s m
          (Dict.extend base_headers (pick_by_location l.print endpoint args "header"))
          c.config.transport
          given
          w
        ≡ r
      → send_authenticated l s c endpoint args url m given w ≡ after_auth c endpoint args url r
  unfolding send_authenticated
  send_authenticated-after c endpoint args url m given w (m₁, w₁, ok ready) e =
      rw (ap (λ r. r.2) e, ap (λ r. r.0) e, ap (λ r. r.1) e, send_authenticated) refl
  send_authenticated-after c endpoint args url m given w (m₁, w₁, err e') e =
      rw (ap (λ r. r.2) e, ap (λ r. r.0) e, ap (λ r. r.1) e, send_authenticated) refl

  after_auth_manager :
      (c : ApiClient) (endpoint : EndpointRecord) (args : Dict Value) (url : String)
      (m m' : AuthManager) (w : W) (found : Result AnyError (Dict String))
      → ((after_auth c endpoint args url (m, w, found)).1 ≡ m)
        × ((after_auth c endpoint args url (m, w, found)).2
            ≡ (after_auth c endpoint args url (m', w, found)).2)
        × ((after_auth c endpoint args url (m, w, found)).3
            ≡ (after_auth c endpoint args url (m', w, found)).3)
  after_auth_manager c endpoint args url m m' w (ok ready) = (refl, refl, refl)
  after_auth_manager c endpoint args url m m' w (err e) = (refl, refl, refl)

  send_authenticated_http :
      (c : ApiClient) (endpoint : EndpointRecord) (args : Dict Value) (url : String)
      (m m' : AuthManager) (given : Option RequestCredentials) (w : W)
      → c.config.transport ≡ http
      → ((send_authenticated l s c endpoint args url m given w).1 ≡ m)
        × ((send_authenticated l s c endpoint args url m given w).2
            ≡ (send_authenticated l s c endpoint args url m' given w).2)
        × ((send_authenticated l s c endpoint args url m given w).3
            ≡ (send_authenticated l s c endpoint args url m' given w).3)
  send_authenticated_http c endpoint args url m m' given w h =
      let relayed =
        auth_http (Dict.extend base_headers (pick_by_location l.print endpoint args "header"))
          c.config.transport given w h in
      rw
        (
          send_authenticated-after c endpoint args url m given w _ (relayed m),
          send_authenticated-after c endpoint args url m' given w _ (relayed m'),
        )
        (after_auth_manager c endpoint args url m m' w _)

  -- With the HTTP transport configured, `execute` leaves the shared authentication manager as it
  -- is, and neither the world after it nor its answer depends on that manager.
  pub execute_http :
      (c : ApiClient) (endpoint : EndpointRecord) (args : Value) (m m' : AuthManager)
      (given : Option RequestCredentials) (w : W)
      → c.config.transport ≡ http
      → ((execute l s c endpoint args m given w).1 ≡ m)
        × ((execute l s c endpoint args m given w).2 ≡ (execute l s c endpoint args m' given w).2)
        × ((execute l s c endpoint args m given w).3 ≡ (execute l s c endpoint args m' given w).3)
  unfolding execute
  execute_http c endpoint args m m' given w h =
      elim (Result-cases (acquire c.rate_limiter (l.clock w)).1) [
        | inr (e, refused) ↦ rw (refused, execute) (refl, refl, refl)
        | inl (_, granted) ↦ elim (Result-cases (target l s c.config endpoint (args_map_of args))) [
          | inr (e, failed) ↦ rw (granted, failed, execute) (refl, refl, refl)
          | inl (url, built) ↦
              rw (granted, built, execute)
                (send_authenticated_http
                  (record c { rate_limiter = (acquire c.rate_limiter (l.clock w)).0 }) endpoint
                  (args_map_of args) url m m' given w h)
        ]
      ]
