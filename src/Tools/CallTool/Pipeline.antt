-- ===== src/Tools/CallTool/Pipeline.antt =====
-- tools/call_tool.rs: what a call does, step by step.
use topdesk_mcp_rs.Auth.AuthManager.{Surroundings, AuthManager, apply_auth_headers}
use topdesk_mcp_rs.Auth.AuthStrategy.{RequestCredentials}
use topdesk_mcp_rs.Core.CircuitBreaker as Breaker
use topdesk_mcp_rs.Core.CircuitBreaker.{CircuitBreaker, settle, admit}
use topdesk_mcp_rs.Core.ConfigSchema.{Config}
use topdesk_mcp_rs.Core.Errors.{AnyError, McpifyError, mcpify}
use topdesk_mcp_rs.Core.RateLimiter
use topdesk_mcp_rs.Core.RateLimiter.{acquire}
use topdesk_mcp_rs.Data.Endpoints.{EndpointRecord}
use topdesk_mcp_rs.Json.{Value}
use topdesk_mcp_rs.Services.ApiClient.Dispatch.{dispatch}
use topdesk_mcp_rs.Services.ApiClient.Execute
use topdesk_mcp_rs.Services.ApiClient.Execute.{
  ApiClient, Libraries, args_map_of, base_headers, flatten_error, target, send_authenticated,
}
use topdesk_mcp_rs.Services.ApiClient.Params.{pick_by_location}
use topdesk_mcp_rs.Shared.{
  ℕ, ◌<◌, String, Option, [], ◌∷◌, Result, ok, err, ◌≡◌, refl, arith, Result-cases, inl, inr,
}
use topdesk_mcp_rs.Shared.Dict
use topdesk_mcp_rs.Shared.Dict.{Dict}
use topdesk_mcp_rs.Tools.CallTool.{CallState, check_response, call_operation}
use topdesk_mcp_rs.Validation.{SchemaCrate, validate_input}

module _ {W : Type 0} (l : Libraries W) (s : Surroundings W) where
  -- The request with no limiter and no breaker around it.
  unfoldable pub send_direct :
      Config
      → EndpointRecord
      → Dict Value
      → String
      → AuthManager
      → Option RequestCredentials
      → W
      → AuthManager × W × Result AnyError Value
  send_direct config endpoint args url m given w =
      let headers = Dict.extend base_headers (pick_by_location l.print endpoint args "header") in
      let (m', w', found) = apply_auth_headers s m headers config.transport given w in
      elim found [
        | err e ↦ (m', w', err e)
        | ok ready ↦
            let (w'', answer) =
              dispatch l.http config endpoint.method url (Dict.get "body" args) ready w' in
            (m', w'', answer)
      ]

  unfoldable pub direct :
      Config
      → EndpointRecord
      → Value
      → AuthManager
      → Option RequestCredentials
      → W
      → AuthManager × W × Result AnyError Value
  unfolding send_direct
  direct config endpoint args m given w = elim (target l s config endpoint (args_map_of args)) [
    | err e ↦ (m, w, err e)
    | ok url ↦ send_direct config endpoint (args_map_of args) url m given w
  ]

  -- What `execute` returns, without the client.
  abbrev pub outcome :
      ApiClient × AuthManager × W × Result AnyError Value → AuthManager × W × Result AnyError Value
  outcome (client, m, w, answer) = (m, w, answer)

  settle_new :
      (b : CircuitBreaker) (r : W × Result AnyError Value)
      → ((settle l.clock b r).1 ≡ r.0) × (flatten_error (settle l.clock b r).2 ≡ r.1)
  unfolding settle
  settle_new b (w, ok value) = (refl, refl)
  settle_new b (w, err e) = (refl, refl)

  execute-new_breaker :
      (f : W → W × Result AnyError Value) (w : W)
      → ((Breaker.execute l.clock f (Breaker.new 5 30000) w).1 ≡ (f w).0)
        × (flatten_error (Breaker.execute l.clock f (Breaker.new 5 30000) w).2 ≡ (f w).1)
  unfolding Breaker.execute Breaker.new admit
  execute-new_breaker f w = settle_new (Breaker.new 5 30000) (f w)

  send_new :
      (c : ApiClient) (endpoint : EndpointRecord) (args : Dict Value) (url : String)
      (m : AuthManager) (given : Option RequestCredentials) (w : W)
      → c.circuit_breaker ≡ Breaker.new 5 30000
      → outcome (send_authenticated l s c endpoint args url m given w)
        ≡ send_direct c.config endpoint args url m given w
  unfolding send_authenticated send_direct
  send_new c endpoint args url m given w fresh =
      let headers = Dict.extend base_headers (pick_by_location l.print endpoint args "header") in
      let r = apply_auth_headers s m headers c.config.transport given w in
      elim (Result-cases r.2) [
        | inr (e, failed) ↦ rw (failed, send_authenticated, send_direct) refl
        | inl (ready, found) ↦
            let f = dispatch l.http c.config endpoint.method url (Dict.get "body" args) ready in
            let (world, answer) = execute-new_breaker f r.1 in
            rw (found, send_authenticated, send_direct, fresh) (λ i. (r.0, world i, answer i))
      ]

  acquire-new :
      (limit now : ℕ)
      → 0 < limit
      → acquire (RateLimiter.new limit 1000) now
        ≡ (record { limit = limit; window = 1000; timestamps = now ∷ [] }, ok tt)
  unfolding acquire RateLimiter.new
  acquire-new limit now h = ground arith

  -- A client that was just made lets its first request through, if its rate limit is not zero:
  -- the limiter and the breaker have no effect on it.
  pub execute-new :
      (config : Config) (endpoint : EndpointRecord) (args : Value) (m : AuthManager)
      (given : Option RequestCredentials) (w : W)
      → 0 < config.rate_limit
      → outcome (Execute.execute l s (Execute.new config) endpoint args m given w)
        ≡ direct config endpoint args m given w
  unfolding Execute.execute Execute.new direct
  execute-new config endpoint args m given w h =
      let granted = acquire-new config.rate_limit (l.clock w) h in
      elim (Result-cases (target l s config endpoint (args_map_of args))) [
        | inr (e, failed) ↦ rw (granted, failed, Execute.execute, direct) refl
        | inl (url, built) ↦
            rw (granted, built, Execute.execute, direct)
              (send_new
                (record {
                  config = config;
                  circuit_breaker = Breaker.new 5 30000;
                  rate_limiter = (acquire (RateLimiter.new config.rate_limit 1000) (l.clock w)).0;
                })
                endpoint (args_map_of args) url m given w refl)
      ]

  module _ (c : SchemaCrate) where
    -- Arguments that fail the validation are refused with its error, and nothing is sent: the
    -- world and the authentication manager stay as they were.
    pub call_operation_invalid :
        (endpoint : EndpointRecord) (config : Config) (op : String) (args : Value)
        (given : Option RequestCredentials) (st : CallState W c) (e : McpifyError)
        → (validate_input c config.api_version op args st.caches).1 ≡ err e
        → ((call_operation l s c endpoint config op args given st).1 ≡ err (mcpify e))
          × ((call_operation l s c endpoint config op args given st).0.world ≡ st.world)
          × ((call_operation l s c endpoint config op args given st).0.auth_manager
              ≡ st.auth_manager)
    unfolding call_operation
    call_operation_invalid endpoint config op args given st e h = ground arith

    -- With valid arguments and a rate limit that is not zero, the answer, the world and the
    -- authentication manager after a call are those of one request without any limiter or
    -- breaker, whatever calls came before: each call makes a client of its own. The answer is
    -- passed on whether or not it fits the output schema.
    pub call_operation-direct :
        (endpoint : EndpointRecord) (config : Config) (op : String) (args : Value)
        (given : Option RequestCredentials) (st : CallState W c)
        → 0 < config.rate_limit
        → (validate_input c config.api_version op args st.caches).1 ≡ ok tt
        → (
          (call_operation l s c endpoint config op args given st).0.auth_manager,
          (call_operation l s c endpoint config op args given st).0.world,
          (call_operation l s c endpoint config op args given st).1,
        )
          ≡ direct config endpoint args st.auth_manager given st.world
    unfolding call_operation check_response
    call_operation-direct endpoint config op args given st pos valid =
        ground (arith, execute-new config endpoint args st.auth_manager given st.world pos)
