-- ===== src/Tests/Wire.antt =====
-- A way to send that refuses every request but those of one URL.
use topdesk_mcp_rs.Core.ConfigSchema.{stdio}
use topdesk_mcp_rs.Core.Errors.{message}
use topdesk_mcp_rs.Services.ApiClient.Execute.{args_map_of, target}
use topdesk_mcp_rs.Services.ApiClient.Execute.Wire.{Sender, with_sender, SendsAlike}
use topdesk_mcp_rs.Services.ApiClient.Params.{apply_path_params, pick_by_location}
use topdesk_mcp_rs.Services.UrlBuilder.{build_api_url}
use topdesk_mcp_rs.Shared.{
  ℕ, String, none, ok, err, str_eq, if◌then◌else◌, ◌≡◌, refl, sym, ◌∙◌, arith, eq_iff,
}
use topdesk_mcp_rs.Tests.Fixtures.{
  config_for, flaky_http, libraries, surroundings, manager, endpoint, arguments, open_schemas,
  no_caches,
}
use topdesk_mcp_rs.Tools.CallTool.{CallState, call_operation}
use topdesk_mcp_rs.Tools.CallTool.Wire.{call_operation-with_sender}

abbrev asset_url : String
asset_url = "https://api.example/assets/41?page=2"

abbrev guarded : Sender libraries surroundings
guarded request w =
    if str_eq request.url asset_url then flaky_http.send request w else (w, err (message "blocked"))

built :
    target libraries surroundings (config_for stdio) endpoint (args_map_of arguments) ≡ ok asset_url
unfolding target build_api_url pick_by_location apply_path_params
built = refl

guarded_alike :
    SendsAlike libraries surroundings guarded
      (config_for stdio)
      endpoint
      manager
      none
      0
      (args_map_of arguments)
guarded_alike request is w' =
    let url : ok asset_url ≡ ok request.url = sym built ∙ is.of_url in
    ground (arith, eq_iff request.url asset_url)

abbrev call_state : CallState ℕ open_schemas
call_state = record { caches = no_caches open_schemas; auth_manager = manager; world = 0 }

call_operation-with_sender_example :
    call_operation libraries surroundings open_schemas endpoint
      (config_for stdio)
      "getAsset"
      arguments
      none
      call_state
    ≡ call_operation
        (with_sender libraries surroundings guarded)
        surroundings
        open_schemas
        endpoint
        (config_for stdio)
        "getAsset"
        arguments
        none
        call_state
call_operation-with_sender_example =
    call_operation-with_sender libraries surroundings open_schemas guarded endpoint
      (config_for stdio) "getAsset" arguments none call_state (λ valid. guarded_alike)
