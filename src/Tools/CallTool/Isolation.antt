-- ===== src/Tools/CallTool/Isolation.antt =====
-- tools/call_tool.rs: a call on HTTP, and the shared authentication manager.
use topdesk_mcp_rs.Auth.AuthManager.{Surroundings, AuthManager}
use topdesk_mcp_rs.Auth.AuthStrategy.{RequestCredentials}
use topdesk_mcp_rs.Core.ConfigSchema.{Config, http}
use topdesk_mcp_rs.Data.Endpoints.{EndpointRecord}
use topdesk_mcp_rs.Json.{Value}
use topdesk_mcp_rs.Services.ApiClient.Execute
use topdesk_mcp_rs.Services.ApiClient.Execute.{Libraries}
use topdesk_mcp_rs.Services.ApiClient.Execute.Isolation.{execute_http}
use topdesk_mcp_rs.Shared.{String, Option, Result-cases, inl, inr, ◌≡◌, refl, ap, sym}
use topdesk_mcp_rs.Tools.CallTool.{CallState, check_response, call_operation}
use topdesk_mcp_rs.Validation.{SchemaCrate, validate_input}

module _ {W : Type 0} (l : Libraries W) (s : Surroundings W) (c : SchemaCrate) where
  -- With the HTTP transport configured, a call leaves the authentication manager as it is, and
  -- its answer is the same under any other manager.
  pub call_operation_http :
      (endpoint : EndpointRecord) (config : Config) (op : String) (args : Value)
      (given : Option RequestCredentials) (st : CallState W c) (m : AuthManager)
      → config.transport ≡ http
      → ((call_operation l s c endpoint config op args given st).0.auth_manager ≡ st.auth_manager)
        × ((call_operation l s c endpoint config op args given (record st { auth_manager = m })).1
            ≡ (call_operation l s c endpoint config op args given st).1)
  unfolding call_operation Execute.new
  call_operation_http endpoint config op args given st m h =
      elim (Result-cases (validate_input c config.api_version op args st.caches).1) [
        | inr (e, invalid) ↦ rw (invalid, call_operation) (refl, refl)
        | inl (_, valid) ↦
            let (kept, world, same) =
              execute_http l s (Execute.new config) endpoint args st.auth_manager m given st.world
                h in
            let caches = (validate_input c config.api_version op args st.caches).0 in
            rw (valid, call_operation, kept)
              (refl, ap (λ r. (check_response l s c config op r caches).1) (sym same))
      ]
