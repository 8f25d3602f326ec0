-- ===== src/Tools/CallTool.antt =====
-- tools/call_tool.rs: validate the arguments, call the API, check the response.
pub mod Pipeline
pub mod Isolation
pub mod Caching
pub mod Wire
use topdesk_mcp_rs.Auth.AuthManager.{Surroundings, AuthManager}
use topdesk_mcp_rs.Auth.AuthStrategy.{RequestCredentials}
use topdesk_mcp_rs.Core.ConfigSchema.{Config}
use topdesk_mcp_rs.Core.Errors.{AnyError, mcpify}
use topdesk_mcp_rs.Data.Endpoints.{EndpointRecord}
use topdesk_mcp_rs.Json.{Value}
use topdesk_mcp_rs.Services.ApiClient.Execute
use topdesk_mcp_rs.Services.ApiClient.Execute.{ApiClient, Libraries}
use topdesk_mcp_rs.Shared.{String, Option, none, some, Result, ok, err}
use topdesk_mcp_rs.Validation.{SchemaCrate, Caches, validate_input, validate_output}

-- What a call may change: the caches, the shared authentication manager, and the world.
pub record CallState (W : Type 0) (c : SchemaCrate) : Type 0 where
  pub caches : Caches c
  pub auth_manager : AuthManager
  pub world : W

module _ {W : Type 0} (l : Libraries W) (s : Surroundings W) (c : SchemaCrate) where
  -- The last step: a response that does not fit its schema is logged, and returned all the same.
  unfoldable pub check_response :
      Config → String → Result AnyError Value → Caches c → Caches c × Result AnyError Value
  check_response config operation_id (err e) k = (k, err e)
  check_response config operation_id (ok response) k =
      let (k', answer) = validate_output c config.api_version operation_id response k in
      (k', ok response)

  unfoldable pub call_operation :
      EndpointRecord
      → Config
      → String
      → Value
      → Option RequestCredentials
      → CallState W c
      → CallState W c × Result AnyError Value
  unfolding check_response
  call_operation endpoint config operation_id args given st =
      let (k, checked) = validate_input c config.api_version operation_id args st.caches in
      elim checked [
        | err e ↦ (record st { caches = k }, err (mcpify e))
        | ok _ ↦
            let (client, m, w, response) =
              Execute.execute l s (Execute.new config) endpoint args st.auth_manager given
                st.world in
            let (k', answer) = check_response config operation_id response k in
            (record { caches = k'; auth_manager = m; world = w }, answer)
      ]
