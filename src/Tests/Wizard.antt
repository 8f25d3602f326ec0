-- ===== src/Tests/Wizard.antt =====
-- The setup wizard at concrete answers, with files and a keychain in the world.

use mathlib.Core.List.{Memᴰ}
use topdesk_mcp_rs.Auth.AuthManager.{Surroundings, credential_account, apply_auth_headers}
use topdesk_mcp_rs.Auth.AuthManager.Basics.{basic_manager}
use topdesk_mcp_rs.Auth.AuthManager.Stored.{entered}
use topdesk_mcp_rs.Cli.SetupWizard.Prompts.{WizardCrate}
use topdesk_mcp_rs.Cli.SetupWizard.Persistence.{
  env_choice, local_choice, global_choice, write_config_yaml, persist_selection,
  persist_selection_at, prompt_persistence, print_mcp_client_config, finish_setup, make_parent,
  build_runtime_settings, insert_credentials,
}
use topdesk_mcp_rs.Cli.SetupWizard.EnvFile.{line_of, save_lines, saved_env-credential}
use topdesk_mcp_rs.Cli.SetupWizard.Fields.{setting_fields, saved, saved_hides_credentials}
use topdesk_mcp_rs.Cli.SetupWizard.Settings.{IsSystem}
use topdesk_mcp_rs.Cli.SetupWizard.Loaded.{DecodesSetup, IsSetUp, saved_local-load_config}
use topdesk_mcp_rs.Cli.SetupWizard.Credentials.{
  LeavesCredentials, surroundings_of, finish_setup-apply_auth_headers,
}
use topdesk_mcp_rs.Core.ConfigManager.{
  Machine, load_config, merge, layers, env_overrides, override_each, read_yaml_if_exists,
  resolve_home_dir,
}
use topdesk_mcp_rs.Core.ConfigSchema.{Config, basic, stdio, http}
use topdesk_mcp_rs.Core.CredentialStorage.{
  Vault, Bytes, no_entry, save_credential, load_credential, load_from_file, save_to_file,
}
use topdesk_mcp_rs.Core.CredentialStorage.RoundTrip.{IsFaithful}
use topdesk_mcp_rs.Core.CredentialStorage.Keychain.{IsKeychain, load_credential-save_credential}
use topdesk_mcp_rs.Core.Errors.{message}
use topdesk_mcp_rs.Json.{object, to_fields, fields-to_fields}
use topdesk_mcp_rs.Shared.{
  inl, arith, String, List, true, none, some, [], ◌∷◌, ok, err, ok_or, str_eq, ◌≡◌, refl, ap,
  if◌then◌else◌,
}
use topdesk_mcp_rs.Shared.Actions.{◌>>=◌}
use topdesk_mcp_rs.Shared.Dict
use topdesk_mcp_rs.Shared.Dict.{Dict, get-insert_same}
use topdesk_mcp_rs.Tests.Fixtures.{twelve_bytes, vault, config_for}
use topdesk_mcp_rs.Tests.Decoder.{decoder}
use topdesk_mcp_rs.Tests.Storage.{vault-IsFaithful}

record World : Type 0 where
  files : Dict String
  keychain : Dict String

abbrev start : World
start = record { files = []; keychain = [] }

-- The local file stands in the current directory.
abbrev resolve : String → String
resolve path = if str_eq path "topdesk-mcp.config.yml" then "/work/topdesk-mcp.config.yml" else path

abbrev wizard : WizardCrate World
wizard = record {
  ask_text = λ question w. (w, ok "ann");
  ask_password = λ question w. (w, ok "pw");
  ask_select = λ question choices w. (w, ok local_choice);
  println = λ line w. w;
  head = λ url w. (w, true);
  env_var = λ w name. none;
  current_dir = λ w. (w, ok "/work");
  create_dir_all = λ path w. (w, ok tt);
  write = λ path text w. (record w { files = Dict.insert (resolve path) text w.files }, ok tt);
  parent = λ path. none;
  to_yaml = λ value. ok "yaml";
  to_json = λ credentials. ok "json";
  pretty = λ value. "value";
  debug = λ text. text;
  to_uppercase = λ key. if str_eq key "username" then "USERNAME" else "PASSWORD";
  to_lowercase = λ text. text;
}

-- The parser knows the one text that the wizard writes.
abbrev machine_at : World → Machine
machine_at w = record {
  env_var = λ name. none;
  read_to_string = λ path. Dict.get (resolve path) w.files;
  parse_yaml =
      λ text. some (object (to_fields (setting_fields "https://api.example" "change-1.4.0" http)));
  parse_u64 = λ text. none;
  decode = decoder;
  install_dir = "/opt/topdesk-mcp";
}

wizard-IsSystem : IsSystem wizard machine_at
wizard-IsSystem = record {
  reads_back = λ path text w written. get-insert_same (resolve path) text w.files;
  println_keeps = λ path line w. refl;
  is_relative = λ dir w w₁ w₂ at. let here : dir ≡ "/work" = cc in rw here refl;
  keeps_env = λ w w₁ name. refl;
}

abbrev answers : Dict String
answers = entered "ann" "pw"

abbrev saved_world : World
saved_world = record { files = ("/work/topdesk-mcp.config.yml", "yaml") ∷ []; keychain = [] }

saved_locally :
    saved wizard "https://api.example" "change-1.4.0" http answers local_choice start
    ≡ (saved_world, ok tt)
unfolding persist_selection persist_selection_at write_config_yaml make_parent
    build_runtime_settings insert_credentials ◌>>=◌
saved_locally = refl

machine_at-DecodesSetup : (w : World) → DecodesSetup (machine_at w)
machine_at-DecodesSetup w = record {
  of_url = λ settings config text e set. ground (arith, fields-to_fields settings);
  of_api_version = λ settings config text e set. ground (arith, fields-to_fields settings);
  of_transport = λ settings config transport e set. ground (arith, fields-to_fields settings);
}

abbrev loaded_config : Config
loaded_config = record (config_for http) {
  url = "https://api.example";
  api_version = "change-1.4.0";
}

loads : load_config (machine_at saved_world) [] ≡ ok loaded_config
unfolding load_config merge layers env_overrides override_each read_yaml_if_exists resolve_home_dir
loads = refl

saved_local-load_config_example : IsSetUp loaded_config "https://api.example" "change-1.4.0" http
saved_local-load_config_example =
    saved_local-load_config wizard machine_at "https://api.example" "change-1.4.0" http answers refl
      wizard-IsSystem start saved_world (λ text. refl) (machine_at-DecodesSetup saved_world)
      (refl, refl, refl, refl) (λ yaml printed. refl) saved_locally loaded_config loads

saved_hides_credentials_example :
    (saved wizard "https://api.example" "change-1.4.0" http answers local_choice start
      ≡ saved wizard "https://api.example" "change-1.4.0" http
          (entered "bob" "pw2")
          local_choice
          start)
    × (saved wizard "https://api.example" "change-1.4.0" http answers global_choice start
        ≡ saved wizard "https://api.example" "change-1.4.0" http
            (entered "bob" "pw2")
            global_choice
            start)
saved_hides_credentials_example =
    saved_hides_credentials wizard "https://api.example" "change-1.4.0" http answers
      (entered "bob" "pw2") refl refl start

saved_env-credential_example :
    (lines : List String) × Memᴰ (line_of "TOPDESK_MCP_PASSWORD" "pw") lines
    × (saved wizard "https://api.example" "change-1.4.0" http answers env_choice start
        ≡ save_lines wizard lines start)
saved_env-credential_example =
    saved_env-credential wizard "https://api.example" "change-1.4.0" http answers start
      "TOPDESK_MCP_PASSWORD" "pw" refl

-- A keychain that works; the file behind it takes nothing.
abbrev keychain_vault : Vault World
keychain_vault = record {
  Contents = Dict Bytes;
  set_password =
      λ account value w. (record w { keychain = Dict.insert account value w.keychain }, ok tt);
  get_password = λ account w. ok_or (Dict.get account w.keychain) no_entry;
  delete_password = λ account w. (record w { keychain = Dict.remove account w.keychain }, ok tt);
  generate_nonce = λ w. (w, twelve_bytes);
  env_var = λ w name. none;
  sha256 = λ bytes. bytes;
  encrypt = λ key nonce plain. none;
  decrypt = λ key nonce cipher. none;
  as_bytes = λ text. [];
  from_utf8 = λ bytes. ok "json";
  read_fallback = λ w. none;
  create_config_dir = λ w. (w, ok tt);
  write_fallback = λ contents w. (w, err (message "read-only"));
  restrict_dir = λ w. (w, ok tt);
  restrict_file = λ w. (w, ok tt);
  to_json = λ store. err (message "read-only");
  from_json = λ contents. none;
}

keychain_vault-IsFaithful : IsFaithful keychain_vault
keychain_vault-IsFaithful = record {
  decrypts = λ key nonce plain cipher e. cc;
  gives_bytes = λ key nonce plain cipher e. cc;
  nonce_bytes = λ w. refl;
  nonce_size = λ w. refl;
  reads_json = λ store text e. cc;
  reads_file = λ text w e. cc;
  keeps_env = record {
    of_nonce = λ w. refl;
    of_create = λ w. refl;
    of_write = λ contents w. refl;
    of_dir = λ w. refl;
    of_file = λ w. refl;
  };
  keeps_dir = λ w. refl;
  keeps_file = λ w. refl;
}

keychain_vault-IsKeychain : IsKeychain keychain_vault
keychain_vault-IsKeychain = record {
  sets = λ account value w e. ap (λ o. ok_or o no_entry) (get-insert_same account value w.keychain);
  leaves = λ account. record {
    of_nonce = λ w. refl;
    of_create = λ w. refl;
    of_write = λ contents w. refl;
    of_dir = λ w. refl;
    of_file = λ w. refl;
  };
}

vault-IsKeychain : IsKeychain vault
vault-IsKeychain = record {
  sets = λ account value w e. cc;
  leaves = λ account. record {
    of_nonce = λ w. refl;
    of_create = λ w. refl;
    of_write = λ contents w. refl;
    of_dir = λ w. refl;
    of_file = λ w. refl;
  };
}

saved_api_anywhere : (save_credential vault "api" "pw" none).1 ≡ ok tt
unfolding save_credential save_to_file
saved_api_anywhere = refl

load_credential-save_credential_example :
    load_credential vault "api" (save_credential vault "api" "pw" none).0 ≡ ok (some "pw")
load_credential-save_credential_example =
    load_credential-save_credential vault vault-IsFaithful vault-IsKeychain "api" "pw" none refl
      saved_api_anywhere

wizard-LeavesCredentials : LeavesCredentials wizard keychain_vault
unfolding load_credential load_from_file
wizard-LeavesCredentials = record {
  of_println = λ text line w h. h;
  of_select = λ text question choices w h. h;
  of_current_dir = λ text w h. h;
  of_create_dir = λ text dir w h. h;
  of_env_file = λ text dir contents w h. h;
  of_local_file = λ text dir contents w h. h;
  of_home_file = λ text dir contents w h. h;
}

abbrev set_up_world : World
set_up_world = record {
  files = ("/work/topdesk-mcp.config.yml", "yaml") ∷ [];
  keychain = ("active-credentials", "json") ∷ [];
}

finished_setup :
    finish_setup wizard keychain_vault "https://api.example" basic answers "change-1.4.0" stdio
      start
    ≡ (set_up_world, ok tt)
unfolding finish_setup save_credential persist_selection persist_selection_at write_config_yaml
    make_parent build_runtime_settings insert_credentials prompt_persistence print_mcp_client_config
    ◌>>=◌
finished_setup = refl

saved_again : (save_credential keychain_vault credential_account "json" set_up_world).1 ≡ ok tt
unfolding save_credential
saved_again = refl

abbrev later : Surroundings World
later = surroundings_of wizard keychain_vault (λ text. ok answers) (λ text. text)

finish_setup-apply_auth_headers_example :
    (apply_auth_headers later (basic_manager later none) [] stdio none set_up_world).2
    ≡ ok (("Authorization", "Basic ann:pw") ∷ [])
finish_setup-apply_auth_headers_example =
    finish_setup-apply_auth_headers wizard keychain_vault wizard-LeavesCredentials
      keychain_vault-IsFaithful keychain_vault-IsKeychain "https://api.example" "change-1.4.0" "ann"
      "pw" "json" stdio start set_up_world (λ text. ok answers) (λ text. text)
      (λ text e. (e, refl, inl refl)) refl refl finished_setup refl refl saved_again
