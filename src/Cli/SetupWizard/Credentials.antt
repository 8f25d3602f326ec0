-- ===== src/Cli/SetupWizard/Credentials.antt =====
-- cli/setup_wizard.rs, core/credential_storage.rs and auth/auth_manager.rs: the credentials that the
-- wizard saves, and the header that a request gets of them.
use Prim.Native.String.{◌++◌}
use text.Mathlib.Text.{starts_with}
use topdesk_mcp_rs.Auth.AuthManager.{Surroundings, credential_account, apply_auth_headers}
use topdesk_mcp_rs.Auth.AuthManager.Basics.{basic_manager, basic_credentials}
use topdesk_mcp_rs.Auth.AuthManager.Stored.{entered, apply_auth_headers_from_stored}
use topdesk_mcp_rs.Auth.AuthStrategy.{Credentials}
use topdesk_mcp_rs.Cli.SetupWizard.Prompts.{WizardCrate, say}
use topdesk_mcp_rs.Cli.SetupWizard.Persistence.{
  make_parent, write_config_yaml, persist_selection_at, env_choice, persist_selection,
  prompt_persistence, global_config, build_runtime_settings, print_mcp_client_config, finish_setup,
}
use topdesk_mcp_rs.Core.ConfigManager.{resolve_home_dir}
use topdesk_mcp_rs.Core.ConfigSchema.{Transport, basic, stdio, http}
use topdesk_mcp_rs.Core.CredentialStorage.{Vault, load_credential, save_credential}
use topdesk_mcp_rs.Core.CredentialStorage.RoundTrip.{IsFaithful}
use topdesk_mcp_rs.Core.CredentialStorage.Keychain.{IsKeychain, Accepts, load_credential-accepted}
use topdesk_mcp_rs.Core.Errors.{AnyError}
use topdesk_mcp_rs.Json.{Value}
use topdesk_mcp_rs.Shared.{
  String, false, none, some, List, [], ◌∷◌, Result, ok, str_eq, ◌≡◌, refl, ap, sym, subst,
  Bool-cases, Option-cases, inl, inr,
}
use topdesk_mcp_rs.Shared.Actions.{Keeps, Keeps->>=, gets, >>=-ok, >>=-eq-ok}
use topdesk_mcp_rs.Shared.Dict.{Dict}

module _ {W : Type 0} (c : WizardCrate W) (v : Vault W) where
  -- The storage has this text for the active credentials.
  abbrev pub IsStored : String → W → Type 0
  IsStored text w = load_credential v credential_account w ≡ ok (some text)

  -- What the code relies on: prompts, printing, and the files of the settings leave the
  -- stored credentials alone.
  pub record LeavesCredentials : Type 1 where
    pub of_println : (text line : String) → Keeps (IsStored text) (say c line)
    pub of_select :
        (text question : String) (choices : List String)
        → Keeps (IsStored text) (c.ask_select question choices)
    pub of_current_dir : (text : String) → Keeps (IsStored text) c.current_dir
    pub of_create_dir : (text dir : String) → Keeps (IsStored text) (c.create_dir_all dir)
    pub of_env_file :
        (text dir contents : String) → Keeps (IsStored text) (c.write (dir ++ "/.env") contents)
    pub of_local_file :
        (text dir contents : String)
        → Keeps (IsStored text) (c.write (dir ++ "/topdesk-mcp.config.yml") contents)
    pub of_home_file :
        (text dir contents : String)
        → Keeps (IsStored text) (c.write (dir ++ "/.topdesk-mcp/config.yml") contents)

  module _ (leaves : LeavesCredentials) (text : String) where
    says : (line : String) → Keeps (IsStored text) (say c line)
    says line = leaves.of_println text line

    make_parent-Keeps : (path : String) → Keeps (IsStored text) (make_parent c path)
    unfolding make_parent
    make_parent-Keeps path w h = elim (Option-cases (c.parent path)) [
      | inl e ↦ rw (e, make_parent) h
      | inr (dir, e) ↦ elim (Bool-cases (str_eq dir "")) [
        | inl here ↦ rw (e, make_parent, here) h
        | inr below ↦ rw (e, make_parent, below) (leaves.of_create_dir text dir w h)
      ]
    ]

    write_config_yaml-Keeps :
        (path : String) (fields : Value)
        → ((contents : String) → Keeps (IsStored text) (c.write path contents))
        → Keeps (IsStored text) (write_config_yaml c path fields)
    unfolding write_config_yaml
    write_config_yaml-Keeps path fields file =
        Keeps->>= _ _ _ (λ w h. h)
          (λ yaml.
            Keeps->>= _ _ _ (make_parent-Keeps path)
              (λ _. Keeps->>= _ _ _ (file yaml) (λ _. Keeps->>= _ _ _ (says _) (λ _. says _))))

    persist_selection_at-Keeps :
        (choice : String) (env : Dict String) (fields : Value) (dir home : String)
        → Keeps
            (IsStored text)
            (persist_selection_at c choice env fields dir (home ++ "/.topdesk-mcp/config.yml"))
    unfolding persist_selection_at
    persist_selection_at-Keeps choice env fields dir home w h =
        elim (Bool-cases (str_eq choice env_choice)) [
          | inl e ↦
              rw (e, persist_selection_at)
                (Keeps->>= _ _ _ (leaves.of_env_file text dir _) (λ _. says _) w h)
          | inr e ↦ elim (Bool-cases (starts_with choice "Write a config.yml file (global")) [
            | inl g ↦
                rw (e, persist_selection_at, g)
                  (write_config_yaml-Keeps _ fields (leaves.of_home_file text home) w h)
            | inr g ↦ elim (Bool-cases (starts_with choice "Write a config.yml file (local")) [
              | inl l ↦
                  rw (e, persist_selection_at, g, l)
                    (write_config_yaml-Keeps _ fields (leaves.of_local_file text dir) w h)
              | inr l ↦ rw (e, persist_selection_at, g, l) (says _ w h)
            ]
          ]
        ]

    prompt_persistence-Keeps :
        (env : Dict String) (fields : Value)
        → Keeps (IsStored text) (prompt_persistence c env fields)
    unfolding prompt_persistence persist_selection
    prompt_persistence-Keeps env fields = Keeps->>= _ _ _ (leaves.of_select text _ _) (λ choice.
        Keeps->>= _ _ _ (leaves.of_current_dir text) (λ dir w h.
          subst (λ r. IsStored text r.0) (sym (>>=-ok (gets (global_config c)) _ refl))
            (persist_selection_at-Keeps choice env fields dir (resolve_home_dir (c.env_var w)) w
              h)))

    print_mcp_client_config-Keeps :
        (transport : Transport) (env : Dict String)
        → Keeps (IsStored text) (print_mcp_client_config c transport basic env)
    unfolding print_mcp_client_config
    print_mcp_client_config-Keeps stdio env =
        Keeps->>= _ _ _ (says _) (λ _. Keeps->>= _ _ _ (says _) (λ _. says _))
    print_mcp_client_config-Keeps http env =
        Keeps->>= _ _ _ (says _) (λ _. Keeps->>= _ _ _ (says _) (λ _. says _))

  finish_setup-IsStored :
      LeavesCredentials
      → IsFaithful v
      → IsKeychain v
      → (url api_version : String) (transport : Transport) (entries : Dict String) (w w' : W)
      → ((text : String)
          → c.to_json entries ≡ ok text
          → (v.from_utf8 (v.as_bytes text) ≡ ok text) × Accepts v credential_account text w)
      → finish_setup c v url basic entries api_version transport w ≡ (w', ok tt)
      → (text : String) × (c.to_json entries ≡ ok text) × IsStored text w'
  unfolding finish_setup
  finish_setup-IsStored leaves good keys url api_version transport entries w w' keeps h =
      let (w₁, text, printed, h₁) = >>=-eq-ok _ _ h in
      let (w₂, _, saved, h₂) = >>=-eq-ok _ _ h₁ in
      let json = ap (λ r. r.1) printed in
      let stored =
        load_credential-accepted v good keys credential_account text w₁
          (subst (Accepts v credential_account text) (ap (λ r. r.0) printed) (keeps text json).1)
          (keeps text json).0 (ap (λ r. r.1) saved) in
      let settings = build_runtime_settings c url basic api_version transport entries in
      let kept =
        Keeps->>= _ _ _ (prompt_persistence-Keeps leaves text (settings.0) (settings.1))
          (λ _.
            Keeps->>= _ _ _ (print_mcp_client_config-Keeps leaves text transport (settings.0))
              (λ _. says leaves text _))
          w₂ (rw (ap (λ r. r.0) saved) at stored) in
      (text, json, subst (λ r. IsStored text r.0) h₂ kept)

  -- The manager's surroundings, with the wizard's storage.
  abbrev pub surroundings_of :
      (String → Result AnyError Credentials) → (String → String) → Surroundings W
  surroundings_of from_json encode = record {
    env_var = c.env_var;
    load_credential = load_credential v;
    save_credential = save_credential v;
    to_json = c.to_json;
    from_json = from_json;
    encode = encode;
  }

  -- If prompts, printing and the files of the settings leave the stored credentials alone, the
  -- storage keeps what it is given, the keychain takes the credentials' JSON or has no older entry
  -- for their account after refusing it, that JSON is read back, user name and password are not
  -- empty, and the wizard ends well after these answers: a process that starts then, without the
  -- variable of the user name, and that can save the credentials with their header, puts the
  -- header "Basic" with the encoded answers on a request over stdio.
  pub finish_setup-apply_auth_headers :
      LeavesCredentials
      → IsFaithful v
      → IsKeychain v
      → (url api_version username password text' : String) (transport : Transport) (w w' : W)
      → (from_json : String → Result AnyError Credentials) (encode : String → String)
      → ((text : String)
          → c.to_json (entered username password) ≡ ok text
          → (v.from_utf8 (v.as_bytes text) ≡ ok text)
            × (from_json text ≡ ok (entered username password))
            × Accepts v credential_account text w)
      → str_eq username "" ≡ false
      → str_eq password "" ≡ false
      → finish_setup c v url basic (entered username password) api_version transport w ≡ (w', ok tt)
      → c.env_var w' "TOPDESK_MCP_USERNAME" ≡ none
      → c.to_json (basic_credentials (surroundings_of from_json encode) username password)
        ≡ ok text'
      → (save_credential v credential_account text' w').1 ≡ ok tt
      → (apply_auth_headers
          (surroundings_of from_json encode)
          (basic_manager (surroundings_of from_json encode) none)
          []
          stdio
          none
          w').2
        ≡ ok (("Authorization", "Basic " ++ encode (username ++ (":" ++ password))) ∷ [])
  finish_setup-apply_auth_headers leaves good keys url api_version username password text' transport
        w w' from_json encode reads u p h unset printed saved =
      let (text, json, stored) =
        finish_setup-IsStored leaves good keys url api_version transport (entered username password)
          w w' (λ t e. ((reads t e).0, (reads t e).2)) h in
      apply_auth_headers_from_stored (surroundings_of from_json encode) username password text text'
        [] w' unset stored (reads text json).1 u p printed saved
