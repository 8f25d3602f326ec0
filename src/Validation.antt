-- ===== src/Validation.antt =====
-- validation/validator.rs: arguments and responses against an operation's JSON schemas. Decompressing
-- and parsing the embedded schemas, and compiling and running a JSON schema, are libraries'.
pub mod Coherence
use Prim.Native.String.{◌++◌}
use topdesk_mcp_rs.Core.Errors.{McpifyError, validation}
use topdesk_mcp_rs.Data.Versions.{schemas_zst_for}
use topdesk_mcp_rs.Json.{Value, string, array, to_items, empty_object}
use topdesk_mcp_rs.Shared.{
  String, Bool, true, false, Option, none, some, List, [], ◌∷◌, map, Result, ok, err, map_err,
  if◌then◌else◌,
}
use topdesk_mcp_rs.Shared.Dict
use topdesk_mcp_rs.Shared.Dict.{Dict}

pub record OperationSchemas : Type 0 where
  pub input_schema : Value
  pub output_schema : Value

-- What the code uses of `jsonschema`, and of decoding an embedded file.
pub record SchemaCrate : Type 1 where
  pub Validator : Type 0
  -- None where the schema does not compile.
  pub validator_for : Value → Option Validator
  -- The validator of `{}`.
  pub permissive : Validator
  pub is_valid : Validator → Value → Bool
  pub iter_errors : Validator → Value → List String
  -- None where the embedded file does not decompress or parse.
  pub decode_schemas : String → Option (Dict OperationSchemas)

module _ (c : SchemaCrate) where
  -- The process-wide caches.
  pub record Caches : Type 0 where
    pub schemas : Dict (Dict OperationSchemas)
    pub input : Dict c.Validator
    pub output : Dict c.Validator

  -- The parsed schemas of an embedded file, none of which are known if it cannot be read.
  unfoldable pub parsed_schemas : String → Dict OperationSchemas
  parsed_schemas file = elim (c.decode_schemas file) [ none ↦ [] | some m ↦ m ]

  unfoldable pub schemas_by_operation :
      String → Dict (Dict OperationSchemas) → Dict (Dict OperationSchemas) × Dict OperationSchemas
  unfolding parsed_schemas
  schemas_by_operation api_version cache = elim (Dict.get api_version cache) [
    | some schemas ↦ (cache, schemas)
    | none ↦ elim (schemas_zst_for api_version) [
      | none ↦ (cache, [])
      | some file ↦
          let parsed = parsed_schemas file in (Dict.insert api_version parsed cache, parsed)
    ]
  ]

  -- The compiled schema, or the one of `{}`.
  unfoldable pub compile : Value → c.Validator
  compile schema = elim (c.validator_for schema) [ none ↦ c.permissive | some v ↦ v ]

  -- `entry(key).or_insert_with(compile)`
  unfoldable pub cached_validator :
      Dict c.Validator → String → Value → Dict c.Validator × c.Validator
  unfolding compile
  cached_validator cache key schema = elim (Dict.get key cache) [
    | some v ↦ (cache, v)
    | none ↦ (Dict.insert key (compile schema) cache, compile schema)
  ]

  unfoldable pub check : c.Validator → Value → Result (List String) (Unit {0})
  check v value = if c.is_valid v value then ok tt else err (c.iter_errors v value)

  unfoldable pub validate_against :
      Dict c.Validator → String → Value → Value → Dict c.Validator × Result (List String) (Unit {0})
  unfolding cached_validator check
  validate_against cache key schema value =
      let (cache', v) = cached_validator cache key schema in (cache', check v value)

  abbrev pub input_schema_of : String → Dict OperationSchemas → Value
  input_schema_of operation_id schemas = elim (Dict.get operation_id schemas) [
    | none ↦ empty_object
    | some s ↦ s.input_schema
  ]

  abbrev pub output_schema_of : String → Dict OperationSchemas → Value
  output_schema_of operation_id schemas = elim (Dict.get operation_id schemas) [
    | none ↦ empty_object
    | some s ↦ s.output_schema
  ]

  abbrev pub cache_key : String → String → String
  cache_key api_version operation_id = api_version ++ (" " ++ operation_id)

  abbrev pub details : List String → Option Value
  details errors = some (array (to_items (map string errors)))

  abbrev pub invalid_input : String → List String → McpifyError
  invalid_input operation_id errors =
      validation ("invalid input for '" ++ (operation_id ++ "'")) (details errors)

  abbrev pub unexpected_response : String → List String → McpifyError
  unexpected_response operation_id errors =
      validation ("unexpected response shape for '" ++ (operation_id ++ "'")) (details errors)

  unfoldable pub validate_input :
      String → String → Value → Caches → Caches × Result McpifyError (Unit {0})
  unfolding schemas_by_operation validate_against
  validate_input api_version operation_id value k =
      let (schemas, known) = schemas_by_operation api_version k.schemas in
      let (input, answer) =
        validate_against k.input (cache_key api_version operation_id)
          (input_schema_of operation_id known) value in
      (record k { schemas = schemas; input = input }, map_err (invalid_input operation_id) answer)

  unfoldable pub validate_output :
      String → String → Value → Caches → Caches × Result McpifyError (Unit {0})
  unfolding schemas_by_operation validate_against
  validate_output api_version operation_id value k =
      let (schemas, known) = schemas_by_operation api_version k.schemas in
      let (output, answer) =
        validate_against k.output (cache_key api_version operation_id)
          (output_schema_of operation_id known) value in
      (
        record k { schemas = schemas; output = output },
        map_err (unexpected_response operation_id) answer,
      )
