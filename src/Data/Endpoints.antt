-- ===== src/Data/Endpoints.antt =====
-- data/store.rs: the rows of the `endpoints` table and the queries over them. SQLite is a library: a
-- query gives rows, no row, or an error, and a column of a row may fail to be read.
use topdesk_mcp_rs.Core.Errors.{AnyError}
use topdesk_mcp_rs.Json.{Value, null}
use topdesk_mcp_rs.Shared.{String, Option, none, some, List, [], ◌∷◌, Result, ok, err, ◌>>=◌}

-- A row of the `endpoints` table (data/store.rs).
pub record EndpointRecord : Type 0 where
  pub operation_id : String
  pub path : String
  pub method : String
  pub summary : Option String
  pub description : Option String
  pub input_schema : Value
  pub output_schema : Value
  pub auth_scheme_ref : Option String

-- The columns of a row, as they are read.
pub record Row : Type 0 where
  pub operation_id : Result AnyError String
  pub path : Result AnyError String
  pub method : Result AnyError String
  pub summary : Result AnyError (Option String)
  pub description : Result AnyError (Option String)
  pub input_schema : Result AnyError String
  pub output_schema : Result AnyError String
  pub auth_scheme_ref : Result AnyError (Option String)

-- The answer of `query_row`.
pub data QueryAnswer : Type 0 where
  found : Row → QueryAnswer
  returned_no_rows : QueryAnswer
  query_failed : AnyError → QueryAnswer

module _ (parse_json : String → Option Value) where
  abbrev pub json_or_null : String → Value
  json_or_null text = elim (parse_json text) [ none ↦ null | some v ↦ v ]

  unfoldable pub row_to_endpoint : Row → Result AnyError EndpointRecord
  row_to_endpoint row = do
    input_schema ← row.input_schema
    output_schema ← row.output_schema
    operation_id ← row.operation_id
    path ← row.path
    method ← row.method
    summary ← row.summary
    description ← row.description
    auth_scheme_ref ← row.auth_scheme_ref
    ok (record {
      operation_id = operation_id;
      path = path;
      method = method;
      summary = summary;
      description = description;
      input_schema = json_or_null input_schema;
      output_schema = json_or_null output_schema;
      auth_scheme_ref = auth_scheme_ref;
    })

  -- The closure of `query_row` fails as the query does.
  unfoldable pub get_endpoint : QueryAnswer → Result AnyError (Option EndpointRecord)
  unfolding row_to_endpoint
  get_endpoint (found row) = row_to_endpoint row >>= λ record'. ok (some record')
  get_endpoint returned_no_rows = ok none
  get_endpoint (query_failed e) = err e

  -- `rows.collect()` of the mapped rows.
  unfoldable pub list_endpoints : List Row → Result AnyError (List EndpointRecord)
  unfolding row_to_endpoint
  list_endpoints [] = ok []
  list_endpoints (row ∷ rows) = do
    first ← row_to_endpoint row
    rest ← list_endpoints rows
    ok (first ∷ rest)
