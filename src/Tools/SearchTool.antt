-- ===== src/Tools/SearchTool.antt =====
-- tools/search_tool.rs and `search_endpoints` of data/store.rs: the search by meaning. The embedding
-- model, the queries and the arithmetic on distances are libraries'.
use topdesk_mcp_rs.Core.Errors.{AnyError}
use topdesk_mcp_rs.Json.{Value, number, float, string, array, object, field, end, to_items}
use topdesk_mcp_rs.Shared.{
  ℕ, String, Bool, false, Option, List, [], ◌∷◌, Result, ok, err, ◌>>=◌, map, ltb,
}
use topdesk_mcp_rs.Tools.GetTool.{string_or_null}

-- A similarity is a float, given by its text.
pub record SearchResult : Type 0 where
  pub operation_id : String
  pub summary : Option String
  pub similarity : String

-- The columns of a row of the nearest-neighbour query, as they are read, with the embedding
-- function, the query itself and `1.0 - distance`.
pub record SearchRow : Type 0 where
  pub distance : Result AnyError String
  pub operation_id : Result AnyError String
  pub summary : Result AnyError (Option String)

pub record SearchCrate (Conn : Type 0) : Type 1 where
  pub Embedding : Type 0
  pub embed : String → Result AnyError Embedding
  pub counts : Conn → Result AnyError (ℕ × ℕ)
  pub nearest : Conn → Embedding → ℕ → Result AnyError (List SearchRow)
  pub similarity_of : String → String

module _ {Conn : Type 0} (c : SearchCrate Conn) where
  unfoldable pub row_to_result : SearchRow → Result AnyError SearchResult
  row_to_result row = do
    distance ← row.distance
    operation_id ← row.operation_id
    summary ← row.summary
    ok (record {
      operation_id = operation_id;
      summary = summary;
      similarity = c.similarity_of distance;
    })

  -- `rows.collect()`
  abbrev pub collect_results : List SearchRow → Result AnyError (List SearchResult)
  collect_results [] = ok []
  collect_results (row ∷ rows) = do
    first ← row_to_result row
    rest ← collect_results rows
    ok (first ∷ rest)

  unfoldable pub search_endpoints : Conn → c.Embedding → ℕ → Result AnyError (List SearchResult)
  search_endpoints conn query_embedding limit =
      c.nearest conn query_embedding limit >>= collect_results

  -- Whether the store has fewer embeddings than endpoints.
  unfoldable pub warn_if_embeddings_incomplete : Conn → Bool
  warn_if_embeddings_incomplete conn = elim (c.counts conn) [
    | err _ ↦ false
    | ok counts ↦ ltb counts.1 counts.0
  ]

  abbrev pub result_to_value : SearchResult → Value
  result_to_value r = object (
      field "operation_id" (string r.operation_id) (
        field "summary" (string_or_null r.summary)
          (field "similarity" (number (float r.similarity)) end)))

  unfoldable pub search_operations : Conn → String → ℕ → Result AnyError Value
  unfolding search_endpoints
  search_operations conn query limit = do
    query_embedding ← c.embed query
    results ← search_endpoints conn query_embedding limit
    ok (array (to_items (map result_to_value results)))
