-- ===== src/Tools/CallTool/Caching.antt =====
-- tools/call_tool.rs: a call whose schemas are compiled anew, which the caches of validators change
-- in nothing but time.
use topdesk_mcp_rs.Auth.AuthManager.{Surroundings, AuthManager}
use topdesk_mcp_rs.Auth.AuthStrategy.{RequestCredentials}
use topdesk_mcp_rs.Core.ConfigSchema.{Config}
use topdesk_mcp_rs.Core.Errors.{AnyError, mcpify}
use topdesk_mcp_rs.Data.Endpoints.{EndpointRecord}
use topdesk_mcp_rs.Json.{Value}
use topdesk_mcp_rs.Services.ApiClient.Execute
use topdesk_mcp_rs.Services.ApiClient.Execute.{Libraries}
use topdesk_mcp_rs.Shared.{
  String, Option, Result, ok, err, ◌≡◌, refl, ◌∙◌, ap, Result-cases, inl, inr,
}
use topdesk_mcp_rs.Tools.CallTool.{CallState, check_response, call_operation}
use topdesk_mcp_rs.Validation.{SchemaCrate, Caches, validate_input}
use topdesk_mcp_rs.Validation.Coherence.{
  IsCoherent, ideal_input, validate_input-ideal_input, validate_output-ideal_output,
}

module _ {W : Type 0} (l : Libraries W) (s : Surroundings W) (c : SchemaCrate) where
  -- The specification: a call without caches.
  unfoldable pub ideal_call :
      EndpointRecord
      → Config
      → String
      → Value
      → Option RequestCredentials
      → AuthManager
      → W
      → AuthManager × W × Result AnyError Value
  ideal_call endpoint config operation_id args given m w =
      elim (ideal_input c config.api_version operation_id args) [
        | err e ↦ (m, w, err (mcpify e))
        | ok _ ↦
            let (client, m', w', response) =
              Execute.execute l s (Execute.new config) endpoint args m given w in
            (m', w', response)
      ]

  -- What a call shows to others than the caches.
  abbrev pub seen : CallState W c × Result AnyError Value → AuthManager × W × Result AnyError Value
  seen (st, answer) = (st.auth_manager, st.world, answer)

  check_response-IsCoherent :
      (config : Config) (operation_id : String) (response : Result AnyError Value) (k : Caches c)
      → IsCoherent c config.api_version k
      → ((check_response l s c config operation_id response k).1 ≡ response)
        × IsCoherent c config.api_version (check_response l s c config operation_id response k).0
  unfolding check_response
  check_response-IsCoherent config operation_id (err e) k h = (refl, h)
  check_response-IsCoherent config operation_id (ok response) k h =
      (refl, (validate_output-ideal_output c config.api_version operation_id response k h).1)

  -- With coherent caches, a call shows what the call without caches shows, and keeps them coherent.
  pub call_operation-ideal_call :
      (endpoint : EndpointRecord) (config : Config) (operation_id : String) (args : Value)
      (given : Option RequestCredentials) (st : CallState W c)
      → IsCoherent c config.api_version st.caches
      → (seen (call_operation l s c endpoint config operation_id args given st)
          ≡ ideal_call endpoint config operation_id args given st.auth_manager st.world)
        × IsCoherent c config.api_version
            (call_operation l s c endpoint config operation_id args given st).0.caches
  unfolding call_operation ideal_call
  call_operation-ideal_call endpoint config operation_id args given st h =
      let (same, kept) =
        validate_input-ideal_input c config.api_version operation_id args st.caches h in
      let k = (validate_input c config.api_version operation_id args st.caches).0 in
      elim (Result-cases (ideal_input c config.api_version operation_id args)) [
        | inr (e, refused) ↦ rw (same ∙ refused, refused, call_operation, ideal_call) (refl, kept)
        | inl (tt, accepted) ↦
            let (client, m, w, response) =
              Execute.execute l s (Execute.new config) endpoint args st.auth_manager given
                st.world in
            let (passed, still) = check_response-IsCoherent config operation_id response k kept in
            rw (same ∙ accepted, accepted, call_operation, ideal_call)
              (ap (λ r. (m, w, r)) passed, still)
      ]
