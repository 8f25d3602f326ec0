-- ===== src/Cli/SetupWizard/Settings.antt =====
-- cli/setup_wizard.rs and core/config_manager.rs: the settings that the wizard saves, and what the
-- configuration makes of them.
use Prim.Native.String.{◌++◌}
use topdesk_mcp_rs.Cli.SetupWizard.Prompts.{WizardCrate, say}
use topdesk_mcp_rs.Cli.SetupWizard.Persistence.{
  global_choice, local_choice, transport_to_value, write_config_yaml, persist_selection,
  persist_selection_at, global_config,
}
use topdesk_mcp_rs.Core.ConfigManager.{
  Machine, env_suffixes, merge, layers, read_yaml_if_exists, resolve_home_dir,
}
use topdesk_mcp_rs.Core.ConfigManager.Cascade.{
  ParsesMaps, merge-first_value, from_variable, get-env_overrides,
}
use topdesk_mcp_rs.Core.Errors.{AnyError}
use topdesk_mcp_rs.Core.ConfigSchema.{Transport}
use topdesk_mcp_rs.Json.{Value, string, object, to_fields, fields-to_fields}
use topdesk_mcp_rs.Shared.{String, true, Option, none, some, [], ok, ◌≡◌, refl, ap, sym, ◌∙◌}
use topdesk_mcp_rs.Shared.Actions.{◌>>=◌, ◌>>◌, gets, >>=-eq-ok}
use topdesk_mcp_rs.Shared.Dict
use topdesk_mcp_rs.Shared.Dict.{Dict, get-insert}
use topdesk_mcp_rs.Cli.SetupWizard.Fields.{setting_fields, are_apart, config_fields, saved}

or_else-found :
    (a b lower : Option Value) (value : Value)
    → Dict.or_else a b ≡ some value
    → Dict.or_else a (Dict.or_else b lower) ≡ some value
or_else-found none none lower value e = cc
or_else-found none (some v) lower value e = e
or_else-found (some v) b lower value e = e

resolve_home_dir_ext :
    (f g : String → Option String)
    → f "HOME" ≡ g "HOME"
    → f "USERPROFILE" ≡ g "USERPROFILE"
    → resolve_home_dir f ≡ resolve_home_dir g
unfolding resolve_home_dir
resolve_home_dir_ext f g home profile = cc

-- The merged configuration has the four settings.
abbrev pub HasSettings : Machine → String → String → Transport → Type 0
HasSettings m url api_version transport =
    (Dict.get "url" (merge (layers m [])) ≡ some (string url))
    × (Dict.get "auth_method" (merge (layers m [])) ≡ some (string "basic"))
    × (Dict.get "api_version" (merge (layers m [])) ≡ some (string api_version))
    × (Dict.get "transport" (merge (layers m [])) ≡ some (transport_to_value transport))

-- No variable gives any of the four.
abbrev pub IsUnset : Machine → Type 0
IsUnset m =
    (m.env_var "TOPDESK_MCP_URL" ≡ none)
    × (m.env_var "TOPDESK_MCP_AUTH_METHOD" ≡ none)
    × (m.env_var "TOPDESK_MCP_API_VERSION" ≡ none)
    × (m.env_var "TOPDESK_MCP_TRANSPORT" ≡ none)

module _ {W : Type 0} (c : WizardCrate W) where
  module _ (m : W → Machine) where
    -- What the code relies on: a file that was written is read back, printing changes no file,
    -- the local file is one in the current directory, and the environment stays as it is.
    pub record IsSystem : Type 0 where
      pub reads_back :
          (path text : String) (w : W)
          → (c.write path text w).1 ≡ ok tt
          → (m (c.write path text w).0).read_to_string path ≡ some text
      pub println_keeps :
          (path line : String) (w : W)
          → (m (c.println line w)).read_to_string path ≡ (m w).read_to_string path
      pub is_relative :
          (dir : String) (w w₁ w₂ : W)
          → c.current_dir w ≡ (w₁, ok dir)
          → (m w₂).read_to_string "topdesk-mcp.config.yml"
            ≡ (m w₂).read_to_string (dir ++ "/topdesk-mcp.config.yml")
      pub keeps_env : (w w₁ : W) (name : String) → (m w₁).env_var name ≡ c.env_var w name

    says_keep :
        IsSystem
        → (a b path : String) (w : W)
        → (m ((say c a >> say c b) w).0).read_to_string path ≡ (m w).read_to_string path
    unfolding ◌>>=◌
    says_keep sys a b path w = sys.println_keeps path b _ ∙ sys.println_keeps path a w

    write_config_yaml-read :
        IsSystem
        → (path : String) (v : Value) (w w' : W) → write_config_yaml c path v w ≡ (w', ok tt)
        → (yaml : String) × (c.to_yaml v ≡ ok yaml) × ((m w').read_to_string path ≡ some yaml)
    unfolding write_config_yaml
    write_config_yaml-read sys path v w w' h =
        let (w₁, yaml, printed, h₁) = >>=-eq-ok _ _ h in
        let (w₂, _, made, h₂) = >>=-eq-ok _ _ h₁ in
        let (w₃, _, written, h₃) = >>=-eq-ok _ _ h₂ in
        (
          yaml,
          ap (λ r. r.1) printed,
          ap (λ r. (m r.0).read_to_string path) (sym h₃)
              ∙ says_keep sys _ _ path w₃
              ∙ ap (λ r. (m r.0).read_to_string path) (sym written)
              ∙ sys.reads_back path yaml w₂ (ap (λ r. r.1) written),
        )

    -- A saved file stands in its layer of the configuration.
    layer-read :
        (v : Dict Value) (yaml path : String) (w : W)
        → (m w).read_to_string path ≡ some yaml
        → (m w).parse_yaml yaml ≡ some (object (to_fields v))
        → read_yaml_if_exists (m w) path ≡ v
    unfolding read_yaml_if_exists
    layer-read v yaml path w e parsed = rw (e, read_yaml_if_exists, parsed) (fields-to_fields v)

    -- A setting that no variable gives is that of the local file, then that of the home file.
    merged :
        (w : W)
        → ParsesMaps (m w)
        → (k suffix : String) → Dict.get k env_suffixes ≡ some suffix
        → (m w).env_var ("TOPDESK_MCP_" ++ suffix) ≡ none
        → (local home : Dict Value) → read_yaml_if_exists (m w) "topdesk-mcp.config.yml" ≡ local
        → read_yaml_if_exists (m w) (resolve_home_dir (m w).env_var ++ "/.topdesk-mcp/config.yml")
          ≡ home
        → (value : Value) → Dict.or_else (Dict.get k local) (Dict.get k home) ≡ some value
        → Dict.get k (merge (layers (m w) [])) ≡ some value
    unfolding layers
    merged w maps k suffix row unset local home l h value e =
        rw
          (
            merge-first_value (m w) maps [] refl k,
            get-env_overrides (m w) k,
            row,
            unset,
            from_variable,
            l,
            h,
          )
          (or_else-found (Dict.get k local) (Dict.get k home) _ value e)

    -- The YAML of these settings is parsed to what it was made of.
    abbrev pub IsParsed : Machine → String → String → Transport → Type 0
    IsParsed m' url api_version transport =
        (yaml : String)
        → c.to_yaml (object (to_fields (setting_fields url api_version transport))) ≡ ok yaml
        → m'.parse_yaml yaml ≡ some (object (to_fields (setting_fields url api_version transport)))

    HasSettings-merged :
        (w : W)
        → ParsesMaps (m w)
        → IsUnset (m w)
        → (url api_version : String) (transport : Transport) (local home : Dict Value)
        → read_yaml_if_exists (m w) "topdesk-mcp.config.yml" ≡ local
        → read_yaml_if_exists (m w) (resolve_home_dir (m w).env_var ++ "/.topdesk-mcp/config.yml")
          ≡ home
        → ((k : String) (value : Value)
            → Dict.get k (setting_fields url api_version transport) ≡ some value
            → Dict.or_else (Dict.get k local) (Dict.get k home) ≡ some value)
        → HasSettings (m w) url api_version transport
    HasSettings-merged w maps (u₁, u₂, u₃, u₄) url api_version transport local home l h found = (
      merged w maps "url" "URL" refl u₁ local home l h _ (found "url" _ refl),
      merged w maps "auth_method" "AUTH_METHOD" refl u₂ local home l h _
          (found "auth_method" _ refl),
      merged w maps "api_version" "API_VERSION" refl u₃ local home l h _
          (found "api_version" _ refl),
      merged w maps "transport" "TRANSPORT" refl u₄ local home l h _ (found "transport" _ refl),
    )

    same_home :
        IsSystem
        → (w w₁ w' : W) (path : String) → gets {E = AnyError} (global_config c) w ≡ (w₁, ok path)
        → resolve_home_dir (m w').env_var ++ "/.topdesk-mcp/config.yml" ≡ path
    same_home sys w w₁ w' path e =
        let dir =
          resolve_home_dir_ext (m w').env_var (c.env_var w) (sys.keeps_env w w' "HOME")
            (sys.keeps_env w w' "USERPROFILE") in
        cc

    module _ (url api_version : String) (transport : Transport) (credentials : Dict String)
        (apart : are_apart c credentials ≡ true) where
      -- If the file system keeps what is written, no credential is named like a setting, the
      -- parser gives maps and reads these settings back, no variable gives any of them, and
      -- saving them in the local file succeeds: the settings merged afterwards have the
      -- URL, the method, the version and the transport that the operator gave.
      pub saved_local-HasSettings :
          IsSystem
          → (w w' : W) → ParsesMaps (m w')
          → IsUnset (m w')
          → IsParsed (m w') url api_version transport
          → saved c url api_version transport credentials local_choice w ≡ (w', ok tt)
          → HasSettings (m w') url api_version transport
      unfolding persist_selection persist_selection_at
      saved_local-HasSettings sys w w' maps unset parsed h =
          let fields = config_fields c url api_version transport credentials apart in
          let (w₁, dir, at, h₁) = >>=-eq-ok _ _ h in
          let (w₂, path, _, h₂) = >>=-eq-ok _ _ h₁ in
          let (yaml, printed, read) = write_config_yaml-read sys _ _ w₂ w' (rw fields at h₂) in
          let entries = setting_fields url api_version transport in
          let local =
            layer-read entries yaml "topdesk-mcp.config.yml" w'
              (sys.is_relative dir w w₁ w' at ∙ read) (parsed yaml printed) in
          HasSettings-merged w' maps unset url api_version transport entries _ local refl
            (λ k value e. rw e refl)

      -- Under the same conditions, and without a local file, saving the settings in the home file
      -- has the same effect.
      pub saved_global-HasSettings :
          IsSystem
          → (w w' : W) → ParsesMaps (m w')
          → IsUnset (m w')
          → IsParsed (m w') url api_version transport
          → (m w').read_to_string "topdesk-mcp.config.yml" ≡ none
          → saved c url api_version transport credentials global_choice w ≡ (w', ok tt)
          → HasSettings (m w') url api_version transport
      unfolding persist_selection persist_selection_at read_yaml_if_exists
      saved_global-HasSettings sys w w' maps unset parsed absent h =
          let fields = config_fields c url api_version transport credentials apart in
          let (w₁, dir, at, h₁) = >>=-eq-ok _ _ h in
          let (w₂, path, found, h₂) = >>=-eq-ok _ _ h₁ in
          let (yaml, printed, read) = write_config_yaml-read sys _ _ w₂ w' (rw fields at h₂) in
          let entries = setting_fields url api_version transport in
          let same = same_home sys w₁ w₂ w' path found in
          let home = layer-read entries yaml _ w' (rw same read) (parsed yaml printed) in
          HasSettings-merged w' maps unset url api_version transport [] entries
            (rw (absent, read_yaml_if_exists) refl) home (λ k value e. e)
