-- ===== src/Services/ApiClient/Execute/Wire.antt =====
-- services/api_client.rs: what `execute` sends. How the HTTP library sends is varied: a request that is
-- not of the call could then be told apart.
use topdesk_mcp_rs.Auth.AuthManager.{Surroundings, AuthManager, apply_auth_headers}
use topdesk_mcp_rs.Auth.AuthStrategy.{RequestCredentials}
use topdesk_mcp_rs.Core.CircuitBreaker as Breaker
use topdesk_mcp_rs.Core.ConfigSchema.{Config}
use topdesk_mcp_rs.Core.Errors.{AnyError}
use topdesk_mcp_rs.Core.RateLimiter.{acquire}
use topdesk_mcp_rs.Data.Endpoints.{EndpointRecord}
use topdesk_mcp_rs.Json.{Value}
use topdesk_mcp_rs.Services.ApiClient.Dispatch.{Request, body_of, prepare, dispatch}
use topdesk_mcp_rs.Services.ApiClient.Dispatch.Requests.{sending_by, dispatch-sending_by}
use topdesk_mcp_rs.Services.ApiClient.Execute.{
  ApiClient, Libraries, args_map_of, base_headers, flatten_error, target, send_authenticated,
  execute,
}
use topdesk_mcp_rs.Services.ApiClient.Params.{pick_by_location}
use topdesk_mcp_rs.Shared.{String, Option, Result, ok, Result-cases, inl, inr, ◌≡◌, refl, ap}
use topdesk_mcp_rs.Shared.Dict
use topdesk_mcp_rs.Shared.Dict.{Dict}

module _ {W : Type 0} (l : Libraries W) (s : Surroundings W) where
  abbrev pub Sender : Type 0
  Sender = Request l.http.Method → W → W × Result AnyError l.http.Response

  -- The libraries with another way to send.
  abbrev pub with_sender : Sender → Libraries W
  with_sender send' = record l { http = sending_by l.http send' }

  abbrev pub call_headers : EndpointRecord → Dict Value → Dict String
  call_headers endpoint args =
      Dict.extend base_headers (pick_by_location l.print endpoint args "header")

  -- The request that a call is about: the endpoint's method, the URL made of its path and of the
  -- arguments, the arguments' body, and the headers of the call with the caller's credentials.
  pub record IsRequestOf (config : Config) (endpoint : EndpointRecord) (args : Dict Value)
      (m : AuthManager) (given : Option RequestCredentials) (w : W)
      (request : Request l.http.Method) : Type 0 where
    pub of_method : l.http.method_from_bytes endpoint.method ≡ ok request.method
    pub of_url : target l s config endpoint args ≡ ok request.url
    pub of_timeout : request.timeout_ms ≡ config.timeout_ms
    pub of_body : request.body ≡ body_of l.http config request.method (Dict.get "body" args)
    pub of_headers :
        (apply_auth_headers s m (call_headers endpoint args) config.transport given w).2
        ≡ ok request.headers

  module _ (send' : Sender) (config : Config) (endpoint : EndpointRecord) (m : AuthManager)
      (given : Option RequestCredentials) (w : W) where
    -- Both ways to send do the same with the requests of the call.
    abbrev pub SendsAlike : Dict Value → Type 0
    SendsAlike args =
        (request : Request l.http.Method)
        → IsRequestOf config endpoint args m given w request
        → (w' : W) → l.http.send request w' ≡ send' request w'

    dispatch-with_sender :
        (args : Dict Value) (url : String) (ready : Dict String)
        → target l s config endpoint args ≡ ok url
        → (apply_auth_headers s m (call_headers endpoint args) config.transport given w).2
          ≡ ok ready
        → SendsAlike args
        → (w' : W)
        → dispatch l.http config endpoint.method url (Dict.get "body" args) ready w'
          ≡ dispatch
              (sending_by l.http send')
              config
              endpoint.method
              url
              (Dict.get "body" args)
              ready
              w'
    unfolding prepare
    dispatch-with_sender args url ready built found alike w' =
        dispatch-sending_by l.http send' config endpoint.method url (Dict.get "body" args) ready
          (λ parsed known. alike _ (record {
            of_method = known;
            of_url = built;
            of_timeout = refl;
            of_body = refl;
            of_headers = found;
          }))
          w'

  send_authenticated-with_sender :
      (send' : Sender) (c : ApiClient) (endpoint : EndpointRecord) (args : Dict Value)
      (url : String) (m : AuthManager) (given : Option RequestCredentials) (w : W)
      → target l s c.config endpoint args ≡ ok url
      → SendsAlike send' c.config endpoint m given w args
      → send_authenticated l s c endpoint args url m given w
        ≡ send_authenticated (with_sender send') s c endpoint args url m given w
  unfolding send_authenticated
  send_authenticated-with_sender send' c endpoint args url m given w built alike =
      let r = apply_auth_headers s m (call_headers endpoint args) c.config.transport given w in
      elim (Result-cases r.2) [
        | inr (e, failed) ↦ rw (failed, send_authenticated) refl
        | inl (ready, found) ↦
            rw (found, send_authenticated)
              (ap
                (λ f.
                  let (b, w'', answer) = Breaker.execute l.clock f c.circuit_breaker r.1 in
                  (record c { circuit_breaker = b }, r.0, w'', flatten_error answer))
                (λ i w'.
                  dispatch-with_sender send' c.config endpoint m given w args url ready built found
                    alike w' i))
      ]

  -- The outcome of `execute` depends on how requests are sent only at the request of the call.
  pub execute-with_sender :
      (send' : Sender) (c : ApiClient) (endpoint : EndpointRecord) (args : Value) (m : AuthManager)
      (given : Option RequestCredentials) (w : W)
      → SendsAlike send' c.config endpoint m given w (args_map_of args)
      → execute l s c endpoint args m given w
        ≡ execute (with_sender send') s c endpoint args m given w
  unfolding execute target
  execute-with_sender send' c endpoint args m given w alike =
      let c' = record c { rate_limiter = (acquire c.rate_limiter (l.clock w)).0 } in
      elim (Result-cases (acquire c.rate_limiter (l.clock w)).1) [
        | inr (e, refused) ↦ rw (refused, execute) refl
        | inl (tt, granted) ↦
            elim (Result-cases (target l s c.config endpoint (args_map_of args))) [
              | inr (e, failed) ↦ rw (granted, failed, execute) refl
              | inl (url, built) ↦
                  rw (granted, built, execute)
                    (send_authenticated-with_sender send' c' endpoint (args_map_of args) url m given
                      w built alike)
            ]
      ]
