-- ===== src/Tools/CallTool/Wire.antt =====
-- tools/call_tool.rs: what a call sends to the API.
use topdesk_mcp_rs.Auth.AuthManager.{Surroundings, AuthManager}
use topdesk_mcp_rs.Auth.AuthStrategy.{RequestCredentials}
use topdesk_mcp_rs.Core.ConfigSchema.{Config}
use topdesk_mcp_rs.Core.Errors.{AnyError}
use topdesk_mcp_rs.Data.Endpoints.{EndpointRecord}
use topdesk_mcp_rs.Json.{Value}
use topdesk_mcp_rs.Services.ApiClient.Execute
use topdesk_mcp_rs.Services.ApiClient.Execute.{ApiClient, Libraries, args_map_of}
use topdesk_mcp_rs.Services.ApiClient.Execute.Wire.{
  Sender, with_sender, SendsAlike, execute-with_sender,
}
use topdesk_mcp_rs.Shared.{
  String, Option, Result, ok, err, Result-cases, inl, inr, ◌≡◌, refl, ap, ◌∙◌,
}
use topdesk_mcp_rs.Tools.CallTool.{CallState, check_response, call_operation}
use topdesk_mcp_rs.Validation.{SchemaCrate, Caches, validate_input}

module _ {W : Type 0} (l : Libraries W) (s : Surroundings W) (c : SchemaCrate) where
  check_response-with_sender :
      (send' : Sender l s) (config : Config) (op : String) (answer : Result AnyError Value)
      (k : Caches c)
      → check_response l s c config op answer k
        ≡ check_response (with_sender l s send') s c config op answer k
  unfolding check_response
  check_response-with_sender send' config op (ok response) k = refl
  check_response-with_sender send' config op (err e) k = refl

  -- What follows the request.
  abbrev finish :
      Libraries W
      → Config
      → String
      → Caches c
      → ApiClient × AuthManager × W × Result AnyError Value
      → CallState W c × Result AnyError Value
  finish l₁ config op k (client, m, w, response) =
      let (k', answer) = check_response l₁ s c config op response k in
      (record { caches = k'; auth_manager = m; world = w }, answer)

  -- Take any other way to send that agrees, where the arguments are valid, on the requests with the
  -- endpoint's method, the URL of its path and of the arguments, the arguments' body, the timeout of
  -- the configuration, and the headers of the call with its credentials: the call has the same
  -- outcome. So nothing else is ever sent, and nothing where the arguments are not valid.
  pub call_operation-with_sender :
      (send' : Sender l s) (endpoint : EndpointRecord) (config : Config) (op : String)
      (args : Value) (given : Option RequestCredentials) (st : CallState W c)
      → ((validate_input c config.api_version op args st.caches).1 ≡ ok tt
          → SendsAlike l s send' config endpoint st.auth_manager given st.world (args_map_of args))
      → call_operation l s c endpoint config op args given st
        ≡ call_operation (with_sender l s send') s c endpoint config op args given st
  unfolding call_operation Execute.new
  call_operation-with_sender send' endpoint config op args given st alike =
      let (k, checked) = validate_input c config.api_version op args st.caches in
      let l' = with_sender l s send' in
      let r' =
        Execute.execute l' s (Execute.new config) endpoint args st.auth_manager given st.world in
      elim (Result-cases checked) [
        | inr (e, refused) ↦ rw (refused, call_operation) refl
        | inl (tt, accepted) ↦
            rw (accepted, call_operation)
              (ap (finish l config op k) (
                  execute-with_sender l s send' (Execute.new config) endpoint args st.auth_manager
                    given st.world (alike accepted))
                ∙ ap (λ q. (record { caches = q.0; auth_manager = r'.1; world = r'.2 }, q.1))
                    (check_response-with_sender send' config op r'.3 k))
      ]
