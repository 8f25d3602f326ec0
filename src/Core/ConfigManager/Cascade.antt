-- ===== src/Core/ConfigManager/Cascade.antt =====
-- core/config_manager.rs: which layer decides a setting.
use Prim.Native.String.{◌++◌}
use topdesk_mcp_rs.Core.ConfigManager.{
  Machine, env_suffixes, object_or_empty, merge, read_yaml_if_exists, parse_env_value,
  override_each, env_overrides, layers,
}
use topdesk_mcp_rs.Json.{Value}
use topdesk_mcp_rs.Shared.{
  String, Bool, true, not, ◌&&◌, Option, none, some, List, [], ◌∷◌, all, Option-cases, inl, inr,
  ◌≡◌, refl, arith, eq_iff,
}
use topdesk_mcp_rs.Shared.Dict
use topdesk_mcp_rs.Shared.Dict.{Dict, get-extend, get-insert}

-- Each key stands once, as in every `Map`.
abbrev pub is_map : {V : Type 0} → Dict V → Bool
is_map [] = true
is_map ((k, v) ∷ m) = not (Dict.contains_key k m) && is_map m

-- The value of the first layer that has the key.
abbrev pub first_value : String → List (Dict Value) → Option Value
first_value k [] = none
first_value k (layer ∷ lower) = Dict.or_else (Dict.get k layer) (first_value k lower)

abbrev pub are_maps : List (Dict Value) → Bool
are_maps layers' = all is_map layers'

pub or_else-none : {V : Type 0} (o : Option V) → Dict.or_else o none ≡ o
or_else-none none = refl
or_else-none (some v) = refl

get_last-get :
    {V : Type 0} (k : String) (m : Dict V) → is_map m ≡ true → Dict.get_last k m ≡ Dict.get k m
get_last-get k [] h = refl
get_last-get k ((j, v) ∷ m) h = ground (arith, eq_iff j k, get_last-get k m)

pub get-merge :
    (k : String) (ls : List (Dict Value))
    → are_maps ls ≡ true
    → Dict.get k (merge ls) ≡ first_value k ls
unfolding merge
get-merge k [] h = refl
get-merge k (layer ∷ lower) h =
    ground (arith, get-extend k (merge lower) layer, get_last-get k layer, get-merge k lower)

pub is_map-insert :
    {V : Type 0} (k : String) (v : V) (m : Dict V)
    → is_map m ≡ true
    → is_map (Dict.insert k v m) ≡ true
is_map-insert k v [] h = refl
is_map-insert k v ((j, w) ∷ m) h =
    ground (arith, eq_iff j k, eq_iff k j, is_map-insert k v m, get-insert k j v m)

module _ (m : Machine) where
  override_each-is_map :
      (rows : List (String × String)) (d : Dict Value)
      → is_map d ≡ true
      → is_map (override_each m rows d) ≡ true
  unfolding override_each
  override_each-is_map [] d h = h
  override_each-is_map ((k, s) ∷ rows) d h = elim (Option-cases (m.env_var ("TOPDESK_MCP_" ++ s))) [
    | inl e ↦ rw e (override_each-is_map rows d h)
    | inr (v, e) ↦ rw e (
        override_each-is_map rows (Dict.insert k (parse_env_value m k v) d)
          (is_map-insert k (parse_env_value m k v) d h))
  ]

  -- What the environment says of a row of the table.
  abbrev pub from_variable : String → Option String → Option Value
  from_variable k none = none
  from_variable k (some suffix) = elim (m.env_var ("TOPDESK_MCP_" ++ suffix)) [
    | none ↦ none
    | some value ↦ some (parse_env_value m k value)
  ]

  get-override_each :
      (k : String) (rows : List (String × String)) (d : Dict Value)
      → is_map rows ≡ true
      → Dict.get k (override_each m rows d)
        ≡ Dict.or_else (from_variable k (Dict.get k rows)) (Dict.get k d)
  unfolding override_each
  get-override_each k [] d h = refl
  get-override_each k ((j, s) ∷ rows) d h = elim (Option-cases (m.env_var ("TOPDESK_MCP_" ++ s))) [
    | inl e ↦ rw e (ground (arith, eq_iff j k, get-override_each k rows d))
    | inr (v, e) ↦ rw e (
        ground (
          arith,
          eq_iff j k,
          get-override_each k rows (Dict.insert j (parse_env_value m j v) d),
          get-insert j k (parse_env_value m j v) d,
        ))
  ]

  pub get-env_overrides :
      (k : String) → Dict.get k (env_overrides m) ≡ from_variable k (Dict.get k env_suffixes)
  unfolding env_overrides
  get-env_overrides k = rw (get-override_each k env_suffixes [] refl) (or_else-none _)

  -- The parser gives maps: `serde_json::Map` holds a key once.
  abbrev pub ParsesMaps : Type 0
  ParsesMaps = (text : String) → is_map (object_or_empty (m.parse_yaml text)) ≡ true

  read_yaml_if_exists-is_map :
      ParsesMaps → (path : String) → is_map (read_yaml_if_exists m path) ≡ true
  unfolding read_yaml_if_exists
  read_yaml_if_exists-is_map parses path = elim (Option-cases (m.read_to_string path)) [
    | inl e ↦ rw (e, read_yaml_if_exists) refl
    | inr (text, e) ↦ rw (e, read_yaml_if_exists) (parses text)
  ]

  layers-are_maps :
      ParsesMaps → (flags : Dict Value) → is_map flags ≡ true → are_maps (layers m flags) ≡ true
  unfolding layers env_overrides
  layers-are_maps parses flags h =
      let file = read_yaml_if_exists-is_map parses in
      rw (h, override_each-is_map env_suffixes [] refl, file _, file _, file _, file _) refl

  -- If the flags are a map and the YAML parser gives maps, a setting of the merged configuration is
  -- that of the first layer that has it, in the order flags, environment, local file, home file,
  -- system file, installation file.
  pub merge-first_value :
      ParsesMaps
      → (flags : Dict Value) → is_map flags ≡ true
      → (k : String) → Dict.get k (merge (layers m flags)) ≡ first_value k (layers m flags)
  merge-first_value parses flags h k = get-merge k (layers m flags) (layers-are_maps parses flags h)

  -- If the flags are a map without the setting, the YAML parser gives maps, and the setting's
  -- environment variable is set: the merged configuration has the variable's value, as a number
  -- if the setting is numeric and the value parses, as text otherwise, whatever the files say.
  pub merge_from_environment :
      ParsesMaps
      → (flags : Dict Value) → is_map flags ≡ true
      → (k suffix value : String) → Dict.get k flags ≡ none
      → Dict.get k env_suffixes ≡ some suffix
      → m.env_var ("TOPDESK_MCP_" ++ suffix) ≡ some value
      → Dict.get k (merge (layers m flags)) ≡ some (parse_env_value m k value)
  unfolding layers
  merge_from_environment parses flags h k suffix value absent row set =
      rw (merge-first_value parses flags h k, absent, get-env_overrides k, row, set, from_variable)
        refl
