-- ===== src/Services/ApiClient/Params.antt =====
-- services/api_client.rs: path, query and header parameters. Percent encoding and the printing of a JSON value are libraries', and are parameters.
use Prim.Native.Char.{Char, code}
use Prim.Native.String
use Prim.Native.String.{◌++◌}
pub mod Placeholders
pub mod Locations
use topdesk_mcp_rs.Data.Endpoints.{EndpointRecord}
use topdesk_mcp_rs.Json.{Value, string, as_str, as_array, member}
use topdesk_mcp_rs.Shared.{
  ℕ, String, Bool, true, false, Option, none, some, List, [], ◌∷◌, if◌then◌else◌, eqb, str_eq,
}
use topdesk_mcp_rs.Shared.Dict
use topdesk_mcp_rs.Shared.Dict.{Dict}

abbrev none_as_empty : Option (List Value) → List Value
none_as_empty none = []
none_as_empty (some vs) = vs

abbrev and_then : {A B : Type 0} → Option A → (A → Option B) → Option B
and_then none f = none
and_then (some a) f = f a

unfoldable pub parameters_of : EndpointRecord → List Value
parameters_of endpoint =
    none_as_empty (and_then (member "parameters" endpoint.input_schema) as_array)

-- The test of the `filter`: the declared location is the given one.
abbrev pub is_at : String → Value → Bool
is_at location param = elim (and_then (member "in" param) as_str) [
  | none ↦ false
  | some text ↦ str_eq text location
]

-- The `filter_map` of the names.
names_at : String → List Value → List String
names_at location [] = []
names_at location (param ∷ params) =
    let rest = names_at location params in
    if is_at location param
    then elim (and_then (member "name" param) as_str) [ none ↦ rest | some name ↦ name ∷ rest ]
    else rest

unfoldable pub names_with_location : EndpointRecord → String → List String
unfolding names_at parameters_of
names_with_location endpoint location = names_at location (parameters_of endpoint)

module _ (print : Value → String) where
  unfoldable pub value_to_plain_string : Value → String
  value_to_plain_string (string s) = s
  value_to_plain_string other = print other

  pick : Dict Value → List String → List (String × String)
  pick args [] = []
  pick args (name ∷ names) =
      let rest = pick args names in
      elim (Dict.get name args) [
        | none ↦ rest
        | some value ↦ (name, value_to_plain_string value) ∷ rest
      ]

  unfoldable pub pick_by_location : EndpointRecord → Dict Value → String → List (String × String)
  unfolding names_with_location pick
  pick_by_location endpoint args location = pick args (names_with_location endpoint location)

abbrev push : String → Char → String
push s c = s ++ (String.◌∷◌ c String.[])

-- The scanner of `apply_path_params`, outside a placeholder and inside one with the name read so
-- far. A placeholder that is never closed takes the rest of the path.
mutual
  scan : (String → String) → String → String
  scan fill String.[] = ""
  scan fill (String.◌∷◌ c cs) =
      let inside = scan_name fill "" cs in
      let outside = String.◌∷◌ c (scan fill cs) in if eqb (code c) b'{' then inside else outside

  scan_name : (String → String) → String → String → String
  scan_name fill name String.[] = fill name
  scan_name fill name (String.◌∷◌ c cs) =
      let closed = fill name ++ scan fill cs in
      let longer = scan_name fill (push name c) cs in if eqb (code c) b'}' then closed else longer

module _ (print : Value → String) (percent_encode : String → String) where
  -- The encoded value of a placeholder; a missing argument is empty.
  unfoldable pub fill_from : Dict Value → String → String
  unfolding value_to_plain_string
  fill_from args name = elim (Dict.get name args) [
    | none ↦ percent_encode ""
    | some value ↦ percent_encode (value_to_plain_string print value)
  ]

  unfoldable pub apply_path_params : EndpointRecord → Dict Value → String
  unfolding scan fill_from
  apply_path_params endpoint args = scan (fill_from args) endpoint.path
