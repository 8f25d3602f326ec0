-- ===== src/Validation/Coherence.antt =====
-- validation/validator.rs: the caches, and the validation without them.
use Prim.Native.String.{◌++◌}
use text.Mathlib.TextLemmas.{append_cancel_left}
use topdesk_mcp_rs.Core.Errors.{McpifyError}
use topdesk_mcp_rs.Data.Versions.{schemas_zst_for}
use topdesk_mcp_rs.Json.{Value}
use topdesk_mcp_rs.Shared.{
  String, none, some, [], Result, map_err, ◌≡◌, refl, ap, arith, str_eq, eq_refl, eq_iff,
  Bool-cases, Option-cases, inl, inr,
}
use topdesk_mcp_rs.Shared.Dict
use topdesk_mcp_rs.Shared.Dict.{Dict, get-insert}
use topdesk_mcp_rs.Validation.{
  OperationSchemas, SchemaCrate, Caches, parsed_schemas, schemas_by_operation, compile,
  cached_validator, check, input_schema_of, output_schema_of, cache_key, invalid_input,
  unexpected_response, validate_input, validate_output,
}

module _ (c : SchemaCrate) where
  -- What the embedded schemas of a version say; nothing for an unknown version.
  unfoldable pub known : String → Dict OperationSchemas
  known api_version = elim (schemas_zst_for api_version) [
    | none ↦ []
    | some file ↦ parsed_schemas c file
  ]

  -- The specification: compile the schema anew for every request.
  unfoldable pub ideal_input : String → String → Value → Result McpifyError (Unit {0})
  unfolding known
  ideal_input api_version operation_id value =
      map_err (invalid_input c operation_id)
        (check c (compile c (input_schema_of c operation_id (known api_version))) value)

  unfoldable pub ideal_output : String → String → Value → Result McpifyError (Unit {0})
  unfolding known
  ideal_output api_version operation_id value =
      map_err (unexpected_response c operation_id)
        (check c (compile c (output_schema_of c operation_id (known api_version))) value)

  cache_key-injective : (v op op' : String) → cache_key c v op ≡ cache_key c v op' → op ≡ op'
  cache_key-injective v op op' e =
      append_cancel_left " " op op' (append_cancel_left v (" " ++ op) (" " ++ op') e)

  -- The validators that a cache has for a version are those of its schemas.
  abbrev pub Holds : String → (String → Value) → Dict c.Validator → Type 0
  Holds v schema_of cache =
      (op : String) (validator : c.Validator)
      → Dict.get (cache_key c v op) cache ≡ some validator
      → validator ≡ compile c (schema_of op)

  cached_validator-compile :
      (v op : String) (schema_of : String → Value) (cache : Dict c.Validator)
      → Holds v schema_of cache
      → (cached_validator c cache (cache_key c v op) (schema_of op)).1 ≡ compile c (schema_of op)
  unfolding cached_validator
  cached_validator-compile v op schema_of cache h =
      elim (Option-cases (Dict.get (cache_key c v op) cache)) [
        | inl missing ↦ rw (missing, cached_validator) refl
        | inr (validator, hit) ↦ rw (hit, cached_validator) (h op validator hit)
      ]

  Holds-insert :
      (v op : String) (schema_of : String → Value) (cache : Dict c.Validator)
      → Holds v schema_of cache
      → Holds v schema_of (Dict.insert (cache_key c v op) (compile c (schema_of op)) cache)
  Holds-insert v op schema_of cache h op' validator e =
      let inserted =
        get-insert (cache_key c v op) (cache_key c v op') (compile c (schema_of op)) cache in
      elim (Bool-cases (str_eq (cache_key c v op) (cache_key c v op'))) [
        | inl same ↦
            let ops = cache_key-injective v op op' ((eq_iff _ _).0 same) in
            rw (← ops) (ground (arith, inserted))
        | inr differs ↦ h op' validator (ground (arith, inserted))
      ]

  cached_validator-Holds :
      (v op : String) (schema_of : String → Value) (cache : Dict c.Validator)
      → Holds v schema_of cache
      → Holds v schema_of (cached_validator c cache (cache_key c v op) (schema_of op)).0
  unfolding cached_validator
  cached_validator-Holds v op schema_of cache h =
      elim (Option-cases (Dict.get (cache_key c v op) cache)) [
        | inl missing ↦ rw (missing, cached_validator) (Holds-insert v op schema_of cache h)
        | inr (validator, hit) ↦ rw (hit, cached_validator) h
      ]

  -- The caches agree with the embedded schemas of the version.
  pub record IsCoherent (v : String) (k : Caches c) : Type 0 where
    pub schemas : (m : Dict OperationSchemas) → Dict.get v k.schemas ≡ some m → m ≡ known v
    pub input : Holds v (λ op. input_schema_of c op (known v)) k.input
    pub output : Holds v (λ op. output_schema_of c op (known v)) k.output

  schemas_by_operation-known :
      (v : String) (cache : Dict (Dict OperationSchemas))
      → ((m : Dict OperationSchemas) → Dict.get v cache ≡ some m → m ≡ known v)
      → ((schemas_by_operation c v cache).1 ≡ known v)
        × ((m : Dict OperationSchemas)
            → Dict.get v (schemas_by_operation c v cache).0 ≡ some m
            → m ≡ known v)
  unfolding schemas_by_operation known
  schemas_by_operation-known v cache h = elim (Option-cases (Dict.get v cache)) [
    | inr (m, hit) ↦ rw (hit, schemas_by_operation) (h m hit, h)
    | inl missing ↦ elim (Option-cases (schemas_zst_for v)) [
      | inl unknown ↦
          rw (missing, unknown, schemas_by_operation, known) (refl, λ m e. absurd (ground arith))
      | inr (file, asset) ↦
          rw (missing, asset, schemas_by_operation, known)
            (refl, λ m e. ground (arith, get-insert v v (parsed_schemas c file) cache, eq_refl v))
    ]
  ]

  -- If the caches hold what the schemas of one version compile to, validating arguments under
  -- that version answers as if the schema were compiled anew, and the caches stay so.
  pub validate_input-ideal_input :
      (v op : String) (value : Value) (k : Caches c)
      → IsCoherent v k
      → ((validate_input c v op value k).1 ≡ ideal_input v op value)
        × IsCoherent v (validate_input c v op value k).0
  unfolding validate_input ideal_input
  validate_input-ideal_input v op value k h =
      let (same, kept) = schemas_by_operation-known v k.schemas h.schemas in
      let schema_of = λ (op' : String). input_schema_of c op' (known v) in
      rw same (
        ap (λ x. map_err (invalid_input c op) (check c x value))
            (cached_validator-compile v op schema_of k.input h.input),
        record {
          schemas = kept;
          input = cached_validator-Holds v op schema_of k.input h.input;
          output = h.output;
        },
      )

  -- If the caches hold what the schemas of one version compile to, validating a response under
  -- that version answers as if the schema were compiled anew, and the caches stay so.
  pub validate_output-ideal_output :
      (v op : String) (value : Value) (k : Caches c)
      → IsCoherent v k
      → ((validate_output c v op value k).1 ≡ ideal_output v op value)
        × IsCoherent v (validate_output c v op value k).0
  unfolding validate_output ideal_output
  validate_output-ideal_output v op value k h =
      let (same, kept) = schemas_by_operation-known v k.schemas h.schemas in
      let schema_of = λ (op' : String). output_schema_of c op' (known v) in
      rw same (
        ap (λ x. map_err (unexpected_response c op) (check c x value))
            (cached_validator-compile v op schema_of k.output h.output),
        record {
          schemas = kept;
          input = h.input;
          output = cached_validator-Holds v op schema_of k.output h.output;
        },
      )

  -- A new process starts with coherent caches.
  pub empty-IsCoherent :
      (v : String) → IsCoherent v (record { schemas = []; input = []; output = [] })
  empty-IsCoherent v = record { schemas = λ m e. cc; input = λ op x e. cc; output = λ op x e. cc }
