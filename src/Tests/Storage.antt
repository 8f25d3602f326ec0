-- ===== src/Tests/Storage.antt =====
-- Configuration, credentials, stores and versions at concrete inputs.
use topdesk_mcp_rs.Core.ConfigManager.{
  Machine, merge, layers, load_config, env_overrides, override_each, parse_env_value,
  read_yaml_if_exists, resolve_home_dir,
}
use topdesk_mcp_rs.Core.ConfigManager.Cascade.{ParsesMaps}
use topdesk_mcp_rs.Core.ConfigManager.Decoding.{
  deciding, NumberField, key, rate_limit, timeout_ms, cache_size, retry_attempts, port, read_number,
  ReadsNumbers, load_config-numbers,
}
use topdesk_mcp_rs.Core.ConfigSchema.{Config, stdio}
use topdesk_mcp_rs.Core.CredentialStorage.{
  Bytes, save_to_file, delete_credential, load_credential, unavailable,
}
use topdesk_mcp_rs.Core.CredentialStorage.RoundTrip.{IsFaithful}
use topdesk_mcp_rs.Core.CredentialStorage.RoundTrip.Deletion.{deleted_credential_comes_back}
use topdesk_mcp_rs.Data.Store.{
  StoreState, in_dir, move_into_place, resolve_store_path, cached_in_memory_connection, embedded,
  extract,
}
use topdesk_mcp_rs.Data.Store.Extraction.{try_rename, move_into_place-try_rename}
use topdesk_mcp_rs.Data.Store.Paths.{resolve_each, resolve_store_path_file}
use topdesk_mcp_rs.Data.Versions.{version_store_files}
use topdesk_mcp_rs.Json.{Value, string, as_object, fields-to_fields}
use topdesk_mcp_rs.Shared.{
  ℕ, ◌<◌, ◌^◌, ok_or, String, Option, none, some, [], ◌∷◌, ok, err, Result, ◌>>=◌, ◌≡◌, refl, arith,
}
use topdesk_mcp_rs.Shared.Dict
use topdesk_mcp_rs.Shared.Dict.{Dict}
use topdesk_mcp_rs.Tests.Fixtures.{config_for, machine, vault, store_crate, empty_state}

-- The file says 5000, and the flags say nothing of the port.
abbrev flags : Dict Value
flags = ("log_level", string "debug") ∷ []

abbrev number_in : NumberField → Dict Value → Result String ℕ
number_in f settings = ok_or (read_number f (Dict.get (key f) settings)) "invalid value"

-- It reads the numbers and keeps the rest of one configuration.
abbrev read_settings : Dict Value → Result String Config
read_settings settings = do
  r ← number_in rate_limit settings
  t ← number_in timeout_ms settings
  c ← number_in cache_size settings
  a ← number_in retry_attempts settings
  p ← number_in port settings
  ok (record (config_for stdio) {
    rate_limit = r;
    timeout_ms = t;
    cache_size = c;
    retry_attempts = a;
    port = p;
  })

abbrev decoder : Value → Result String Config
decoder value = elim (as_object value) [
  | none ↦ err "invalid type"
  | some settings ↦ read_settings settings
]

abbrev deciding_machine : Machine
deciding_machine = record machine { decode = decoder }

deciding_machine-ReadsNumbers : ReadsNumbers deciding_machine
deciding_machine-ReadsNumbers settings config e rate_limit =
    ground (arith, fields-to_fields settings)
deciding_machine-ReadsNumbers settings config e timeout_ms =
    ground (arith, fields-to_fields settings)
deciding_machine-ReadsNumbers settings config e cache_size =
    ground (arith, fields-to_fields settings)
deciding_machine-ReadsNumbers settings config e retry_attempts =
    ground (arith, fields-to_fields settings)
deciding_machine-ReadsNumbers settings config e port = ground (arith, fields-to_fields settings)

deciding_machine-ParsesMaps : ParsesMaps deciding_machine
deciding_machine-ParsesMaps text = refl

abbrev loaded_config : Config
loaded_config = record (config_for stdio) { port = 4000 }

loads : load_config deciding_machine flags ≡ ok loaded_config
unfolding load_config merge layers env_overrides override_each parse_env_value read_yaml_if_exists
    resolve_home_dir
loads = refl

load_config-numbers_example :
    (read_number port (deciding deciding_machine flags port) ≡ some 4000) × (4000 < 2 ^ 16)
load_config-numbers_example =
    load_config-numbers deciding_machine deciding_machine-ParsesMaps deciding_machine-ReadsNumbers
      flags loaded_config refl loads port

pub vault-IsFaithful : IsFaithful vault
vault-IsFaithful = record {
  decrypts = λ key nonce plain cipher e. ground arith;
  gives_bytes = λ key nonce plain cipher e. ground arith;
  nonce_bytes = λ w. refl;
  nonce_size = λ w. refl;
  reads_json = λ store text e. cc;
  reads_file = λ text w e. refl;
  keeps_env = record {
    of_nonce = λ w. refl;
    of_create = λ w. refl;
    of_write = λ contents w. refl;
    of_dir = λ w. refl;
    of_file = λ w. refl;
  };
  keeps_dir = λ w. refl;
  keeps_file = λ w. refl;
}

saved_api : (save_to_file vault "api" "pw" none).1 ≡ ok tt
unfolding save_to_file
saved_api = refl

-- The world after the credential was saved.
abbrev saved_world : Option (Dict Bytes)
saved_world = (save_to_file vault "api" "pw" none).0

deleted_credential_comes_back_example :
    (delete_credential vault "api" saved_world ≡ (saved_world, ok tt))
    × (load_credential vault "api" saved_world ≡ ok (some "pw"))
deleted_credential_comes_back_example =
    deleted_credential_comes_back vault vault-IsFaithful "api" "pw" none saved_world saved_world
      (unavailable "no service") refl saved_api refl refl refl refl

move_into_place-try_rename_example :
    move_into_place store_crate 6 0 "/tmp/x" "/tmp/y" 0
    ≡ try_rename store_crate 5 0 "/tmp/x" "/tmp/y" 0
move_into_place-try_rename_example = move_into_place-try_rename store_crate "/tmp/x" "/tmp/y" 0

-- The state after the first version was asked for.
abbrev extracted_state : StoreState store_crate
extracted_state = record {
  extracted = ("general-1.2.0", "/tmp/topdesk-mcp-store/mcp_store.db") ∷ [];
  unique = 1;
  connections = [];
}

-- The second call fails, and the third takes the path from the cache.
later_resolution :
    resolve_store_path store_crate "general-1.2.0"
      (resolve_each store_crate (("general-1.2.0", 1) ∷ ("unknown", 5) ∷ []) empty_state)
      9
    ≡ (extracted_state, 9, ok "/tmp/topdesk-mcp-store/mcp_store.db")
unfolding resolve_each resolve_store_path embedded extract move_into_place
later_resolution = refl

resolve_store_path_file_example :
    (file : String) × (Dict.get "general-1.2.0" version_store_files ≡ some file)
    × ("/tmp/topdesk-mcp-store/mcp_store.db" ≡ in_dir "/tmp/topdesk-mcp-store" file)
resolve_store_path_file_example =
    resolve_store_path_file store_crate empty_state extracted_state refl
      (("general-1.2.0", 1) ∷ ("unknown", 5) ∷ []) "general-1.2.0" 9 9
      "/tmp/topdesk-mcp-store/mcp_store.db" later_resolution

abbrev connected_state : StoreState store_crate
connected_state = record {
  extracted = [];
  unique = 0;
  connections = ("general-1.2.0", "/tmp/a.db") ∷ [];
}

first_connection :
    cached_in_memory_connection store_crate "general-1.2.0" "/tmp/a.db" empty_state 1
    ≡ (connected_state, 1, ok "/tmp/a.db")
unfolding cached_in_memory_connection
first_connection = refl
