-- ===== src/Tests/Requests.antt =====
-- A call, from the validation to the request, at concrete inputs.

use topdesk_mcp_rs.Auth.AuthManager.Basics.{basic_manager, basic_credentials}
use topdesk_mcp_rs.Auth.AuthManager.Cascade.{
  IsSettled, credentials-IsSettled, credentials_from_variables,
}
use topdesk_mcp_rs.Core.ConfigSchema.{stdio, http}
use topdesk_mcp_rs.Json.{Value}
use topdesk_mcp_rs.Services.ApiClient.Dispatch.{prepare, dispatch}
use topdesk_mcp_rs.Services.ApiClient.Dispatch.Retries.{first_response, dispatch-first_response}
use topdesk_mcp_rs.Services.ApiClient.Execute.{args_map_of}
use topdesk_mcp_rs.Services.ApiClient.Params.{parameters_of, pick_by_location, apply_path_params}
use topdesk_mcp_rs.Services.ApiClient.Params.Locations.{
  AreDeclared, holds, declares, pick_by_location_exact,
}
use topdesk_mcp_rs.Services.ApiClient.Params.Placeholders.{
  occurrences, literal, is_unreserved, occurrences-apply_path_params,
}
use topdesk_mcp_rs.Shared.{
  any, ℕ, String, true, false, none, some, [], ◌∷◌, ok, err, ◌≡◌, refl, arith,
}
use topdesk_mcp_rs.Shared.Dict
use topdesk_mcp_rs.Tests.Fixtures.{
  config_for, flaky_http, libraries, surroundings, manager, endpoint, arguments, strict_schemas,
  open_schemas, no_caches,
}
use topdesk_mcp_rs.Tools.CallTool.{CallState, call_operation}
use topdesk_mcp_rs.Tools.CallTool.Pipeline.{direct, call_operation-direct}
use topdesk_mcp_rs.Validation.{validate_input, invalid_input}

credentials-IsSettled_example :
    IsSettled surroundings
      (basic_manager surroundings (some (basic_credentials surroundings "ann" "pw")))
      (basic_credentials surroundings "ann" "pw")
credentials-IsSettled_example =
    credentials-IsSettled surroundings none (basic_credentials surroundings "ann" "pw") 0 0
      (basic_manager surroundings (some (basic_credentials surroundings "ann" "pw")))
      (credentials_from_variables surroundings 0 "ann" "pw" refl refl)

clean_41 : (s : String) (k : ℕ) → is_unreserved k ≡ false → occurrences k "41" ≡ 0
clean_41 s k h = ground arith

occurrences-apply_path_params_example :
    occurrences b'/' (apply_path_params (λ v. "{}") (λ s. "41") endpoint (args_map_of arguments))
    ≡ occurrences b'/' (literal "/assets/{id}")
occurrences-apply_path_params_example =
    occurrences-apply_path_params (λ v. "{}") (λ s. "41") clean_41 endpoint (args_map_of arguments)
      b'/' refl

pick_by_location_exact_example :
    AreDeclared
      (λ v. "{}")
      (args_map_of arguments)
      "query"
      (parameters_of endpoint)
      (pick_by_location (λ v. "{}") endpoint (args_map_of arguments) "query")
    × ((name : String) (value : Value)
        → any (declares "query" name) (parameters_of endpoint) ≡ true
        → Dict.get name (args_map_of arguments) ≡ some value
        → holds
            (λ v. "{}")
            (args_map_of arguments)
            "query"
            name
            value
            (pick_by_location (λ v. "{}") endpoint (args_map_of arguments) "query")
          ≡ true)
pick_by_location_exact_example =
    pick_by_location_exact (λ v. "{}") (args_map_of arguments) endpoint "query"

dispatch-first_response_example :
    dispatch flaky_http (config_for http) "GET" "https://api.example/assets" none [] 0
    ≡ first_response flaky_http
        (config_for http)
        3
        (prepare flaky_http (config_for http) "GET" "https://api.example/assets" none [])
        0
dispatch-first_response_example =
    dispatch-first_response flaky_http (config_for http) "GET" "https://api.example/assets" none []
      0 "GET" refl (omega arith)

abbrev strict_state : CallState ℕ strict_schemas
strict_state = record { caches = no_caches strict_schemas; auth_manager = manager; world = 0 }

refused_input :
    (validate_input strict_schemas "general-1.2.0" "getAsset" arguments
      (no_caches strict_schemas)).1
    ≡ err (invalid_input strict_schemas "getAsset" ("required" ∷ []))
unfolding validate_input
refused_input = refl

abbrev open_state : CallState ℕ open_schemas
open_state = record { caches = no_caches open_schemas; auth_manager = manager; world = 0 }

accepted_input :
    (validate_input open_schemas "general-1.2.0" "getAsset" arguments (no_caches open_schemas)).1
    ≡ ok tt
unfolding validate_input
accepted_input = refl

call_operation-direct_example :
    (
      (call_operation libraries surroundings open_schemas endpoint
          (config_for stdio)
          "getAsset"
          arguments
          none
          open_state).0.auth_manager,
      (call_operation libraries surroundings open_schemas endpoint
          (config_for stdio)
          "getAsset"
          arguments
          none
          open_state).0.world,
      (call_operation libraries surroundings open_schemas endpoint
          (config_for stdio)
          "getAsset"
          arguments
          none
          open_state).1,
    )
    ≡ direct libraries surroundings (config_for stdio) endpoint arguments manager none 0
call_operation-direct_example =
    call_operation-direct libraries surroundings open_schemas endpoint (config_for stdio) "getAsset"
      arguments none open_state (omega arith) accepted_input
