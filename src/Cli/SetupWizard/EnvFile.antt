-- ===== src/Cli/SetupWizard/EnvFile.antt =====
-- cli/setup_wizard.rs: the file `.env` of `persist_selection`.
use Prim.Native.String.{◌++◌}
use mathlib.Core.List.{Memᴰ}
use mathlib.Core.List.Memᴰ.{head, tail}
use topdesk_mcp_rs.Cli.SetupWizard.Fields.{saved}
use topdesk_mcp_rs.Cli.SetupWizard.Persistence.{
  env_choice, pair_lines, persist_selection, persist_selection_at, insert_credentials,
  build_runtime_settings, to_env_key,
}
use topdesk_mcp_rs.Cli.SetupWizard.Prompts.{WizardCrate, Call, say}
use topdesk_mcp_rs.Core.ConfigSchema.{Transport, basic}
use topdesk_mcp_rs.Core.Errors.{join}
use topdesk_mcp_rs.Shared.{
  String, List, Bool, true, false, some, [], ◌∷◌, map, if◌then◌else◌, str_eq, ◌≡◌, refl, eq_iff,
}
use topdesk_mcp_rs.Shared.Actions.{◌>>=◌, ◌>>◌}
use topdesk_mcp_rs.Shared.Dict
use topdesk_mcp_rs.Shared.Dict.{Dict, get-extend, get_last}

abbrev pub line_of : String → String → String
line_of name value = name ++ ("=" ++ value)

-- An entry of a map is among the lines that are made of the map.
module _ (show : String → String → String) (name value : String) where
  line_at :
      (key v : String) (env : Dict String) (found : Bool)
      → (found ≡ true → key ≡ name)
      → (if found then some v else Dict.get name env) ≡ some value
      → (Dict.get name env ≡ some value → Memᴰ (show name value) (pair_lines show env))
      → Memᴰ (show name value) (show key v ∷ pair_lines show env)
  line_at key v env true same h rest = head (let e = same refl in cc)
  line_at key v env false same h rest = tail (rest h)

  line_in-pair_lines :
      (env : Dict String)
      → Dict.get name env ≡ some value
      → Memᴰ (show name value) (pair_lines show env)
  line_in-pair_lines [] h = cc
  line_in-pair_lines ((key, v) ∷ env) h =
      line_at key v env (str_eq key name) ((eq_iff key name).0) h (line_in-pair_lines env)

module _ {W : Type 0} (c : WizardCrate W) where
  -- The variables that credentials become.
  abbrev pub variables : Dict String → Dict String
  variables credentials =
      map (λ entry. ("TOPDESK_MCP_" ++ to_env_key c (entry.0), entry.1)) credentials

  insert_credentials-extend :
      (credentials env : Dict String)
      → insert_credentials c credentials env ≡ Dict.extend env (variables credentials)
  unfolding insert_credentials
  insert_credentials-extend [] env = refl
  insert_credentials-extend ((key, value) ∷ credentials) env =
      insert_credentials-extend credentials
        (Dict.insert ("TOPDESK_MCP_" ++ to_env_key c key) value env)

  get-insert_credentials_last :
      (name value : String) (credentials env : Dict String)
      → get_last name (variables credentials) ≡ some value
      → Dict.get name (insert_credentials c credentials env) ≡ some value
  get-insert_credentials_last name value credentials env h =
      rw (insert_credentials-extend credentials env, get-extend name env (variables credentials), h)
        refl

  -- What the choice of the `.env` file does with these lines.
  abbrev pub save_lines : List String → Call W (Unit {0})
  save_lines lines = c.current_dir >>= λ local_dir.
      c.write (local_dir ++ "/.env") (join "\n" lines ++ "\n") >> say c "Wrote .env"

  -- If a variable is made of a credential (of the last one with that name), then the choice of
  -- the `.env` file writes lines among which is the variable with the credential's value.
  pub saved_env-credential :
      (url api_version : String) (transport : Transport) (credentials : Dict String) (w : W)
      (name value : String)
      → get_last name (variables credentials) ≡ some value
      → (lines : List String) × Memᴰ (line_of name value) lines
        × (saved c url api_version transport credentials env_choice w ≡ save_lines lines w)
  unfolding build_runtime_settings persist_selection persist_selection_at ◌>>=◌
  saved_env-credential url api_version transport credentials w name value h =
      let env = (build_runtime_settings c url basic api_version transport credentials).0 in
      (
        pair_lines line_of env,
        line_in-pair_lines line_of name value env
            (get-insert_credentials_last name value credentials _ h),
        refl,
      )
