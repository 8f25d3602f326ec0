-- ===== src/Data/Versions/Agreement.antt =====
-- The tables of API versions, compared.
use topdesk_mcp_rs.Data.Versions.{
  version_store_files, version_store_bytes, schema_assets, schemas_zst_for, known_versions,
  version_choices, version_of_choice,
}
use topdesk_mcp_rs.Core.ConfigSchema.{default_api_version}
use topdesk_mcp_rs.Shared.{
  String, Bool, true, not, ◌&&◌, List, [], ◌∷◌, str_eq, map, any, retain, ◌≡◌, refl, arith,
}
use topdesk_mcp_rs.Shared.Dict

abbrev pub labels : List (String × String) → List String
labels = map (λ row. row.0)

-- Whether a version is found depends on the labels alone.
contains_key-labels :
    (k : String) (m m' : List (String × String))
    → labels m ≡ labels m'
    → Dict.contains_key k m ≡ Dict.contains_key k m'
contains_key-labels k [] [] e = refl
contains_key-labels k ((i, v) ∷ m) ((j, w) ∷ m') e = ground (arith, contains_key-labels k m m')
contains_key-labels k _ _ e = cc

-- The tables of files, of embedded stores, of schemas and of known versions have the same labels
-- in the same order; so have the results of the wizard's choices.
pub labels_agree :
    (labels version_store_files ≡ labels version_store_bytes)
    × (labels version_store_files ≡ labels schema_assets)
    × (labels version_store_files ≡ map (λ row. row.label) known_versions)
    × (labels version_store_files ≡ map version_of_choice version_choices)
unfolding version_of_choice
labels_agree = (refl, refl, refl, refl)

-- For every version text whatever: it has a store file exactly when it has embedded bytes, and
-- exactly when it has schemas.
pub known_everywhere :
    (api_version : String)
    → (Dict.contains_key api_version version_store_files
        ≡ Dict.contains_key api_version version_store_bytes)
      × (Dict.contains_key api_version version_store_files
          ≡ Dict.is_some (schemas_zst_for api_version))
unfolding schemas_zst_for
known_everywhere api_version = (
  contains_key-labels api_version version_store_files version_store_bytes labels_agree.0,
  contains_key-labels api_version version_store_files schema_assets labels_agree.1,
)

abbrev pub distinct : List String → Bool
distinct [] = true
distinct (x ∷ xs) = not (any (λ y. str_eq x y) xs) && distinct xs

-- No version is listed twice and no two share a file, exactly one is marked as default, and
-- that is the default of the configuration.
pub versions_distinct :
    (distinct (labels version_store_files) ≡ true)
    × (distinct (map (λ row. row.1) version_store_files) ≡ true)
    × (map (λ row. row.label) (retain (λ row. row.is_default) known_versions)
        ≡ default_api_version ∷ [])
versions_distinct = (refl, refl, refl)
