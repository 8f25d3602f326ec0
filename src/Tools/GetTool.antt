-- ===== src/Tools/GetTool.antt =====
-- tools/get_tool.rs: an operation's record, as JSON.
use Prim.Native.String.{◌++◌}
use topdesk_mcp_rs.Core.Errors.{AnyError, mcpify, not_found}
use topdesk_mcp_rs.Data.Endpoints.{EndpointRecord}
use topdesk_mcp_rs.Json.{Value, null, string, object, field, end}
use topdesk_mcp_rs.Shared.{String, Option, none, some, Result, ok, ok_or, ◌>>=◌}

-- The error of an operation that the store does not have.
abbrev pub unknown_operation : String → AnyError
unknown_operation operation_id =
    mcpify (not_found ("unknown operationId '" ++ (operation_id ++ "'")))

abbrev pub string_or_null : Option String → Value
string_or_null none = null
string_or_null (some s) = string s

-- `serde_json::to_value` of the record.
abbrev pub endpoint_to_value : EndpointRecord → Value
endpoint_to_value e = object (
    field "operation_id" (string e.operation_id) (
      field "path" (string e.path) (
        field "method" (string e.method) (
          field "summary" (string_or_null e.summary) (
            field "description" (string_or_null e.description) (
              field "input_schema" e.input_schema (
                field "output_schema" e.output_schema
                  (field "auth_scheme_ref" (string_or_null e.auth_scheme_ref) end))))))))

-- The record looked up for an operation, which must be there.
abbrev pub require_endpoint :
    String → Result AnyError (Option EndpointRecord) → Result AnyError EndpointRecord
require_endpoint operation_id answer =
    answer >>= λ found. ok_or found (unknown_operation operation_id)

-- `answer` is what `get_endpoint` gives for the operation.
unfoldable pub get_operation :
    String → Result AnyError (Option EndpointRecord) → Result AnyError Value
get_operation operation_id answer =
    require_endpoint operation_id answer >>= λ endpoint. ok (endpoint_to_value endpoint)
