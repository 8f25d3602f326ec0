-- ===== src/Tests/Elsewhere.antt =====
-- The fallback file read under the home directory of another user.
use topdesk_mcp_rs.Tests.Fixtures.{twelve_bytes}
use topdesk_mcp_rs.Core.ConfigManager.{resolve_home_dir}
use topdesk_mcp_rs.Core.CredentialStorage.{
  Vault, Bytes, unavailable, save_to_file, load_from_file, encryption_key,
}
use topdesk_mcp_rs.Core.CredentialStorage.RoundTrip.{IsFaithful}
use topdesk_mcp_rs.Core.CredentialStorage.Hexadecimal.{is_byte}
use topdesk_mcp_rs.Core.CredentialStorage.RoundTrip.Elsewhere.{Refuses, load_from_file-elsewhere}
use topdesk_mcp_rs.Core.Errors.{message}
use topdesk_mcp_rs.Shared.{
  String, Option, true, ◌&&◌, none, some, [], ◌∷◌, ok, err, all, str_eq, eqb, ◌≡◌, refl,
  if◌then◌else◌, arith,
}
use topdesk_mcp_rs.Shared.Dict.{Dict}

-- The home directory of the process, and the file.
record Account : Type 0 where
  home : String
  file : Option (Dict Bytes)

-- A cipher that marks a text with the first byte of its key.
abbrev mark : Bytes → Bytes → Option Bytes
mark [] plain = none
mark (k ∷ key) plain = if is_byte k && all is_byte plain then some (k ∷ plain) else none

abbrev unmark : Bytes → Bytes → Option Bytes
unmark [] cipher = none
unmark (k ∷ key) [] = none
unmark (k ∷ key) (c ∷ plain) = if eqb k c then some plain else none

unmark-mark :
    (key plain cipher : Bytes) → mark key plain ≡ some cipher → unmark key cipher ≡ some plain
unmark-mark [] plain cipher e = cc
unmark-mark (k ∷ key) plain [] e = ground arith
unmark-mark (k ∷ key) plain (c ∷ cipher) e = ground arith

mark-is_byte : (key plain cipher : Bytes) → mark key plain ≡ some cipher → all is_byte cipher ≡ true
mark-is_byte [] plain cipher e = cc
mark-is_byte (k ∷ key) plain [] e = ground arith
mark-is_byte (k ∷ key) plain (c ∷ cipher) e = ground arith

abbrev marking_vault : Vault Account
marking_vault = record {
  Contents = Dict Bytes;
  set_password = λ account value w. (w, err (unavailable "no service"));
  get_password = λ account w. err (unavailable "no service");
  delete_password = λ account w. (w, err (unavailable "no service"));
  generate_nonce = λ w. (w, twelve_bytes);
  env_var = λ w name. some w.home;
  sha256 = λ bytes. bytes;
  encrypt = λ key nonce plain. mark key plain;
  decrypt = λ key nonce cipher. unmark key cipher;
  as_bytes = λ text. if str_eq text "/home/ann" then 1 ∷ [] else 2 ∷ [];
  from_utf8 = λ bytes. ok "pw";
  read_fallback = λ w. w.file;
  create_config_dir = λ w. (w, ok tt);
  write_fallback = λ contents w. (record w { file = some contents }, ok tt);
  restrict_dir = λ w. (w, ok tt);
  restrict_file = λ w. (w, ok tt);
  to_json = λ store. ok store;
  from_json = λ contents. some contents;
}

marking_vault-IsFaithful : IsFaithful marking_vault
marking_vault-IsFaithful = record {
  decrypts = λ key nonce plain cipher e. unmark-mark key plain cipher e;
  gives_bytes = λ key nonce plain cipher e. mark-is_byte key plain cipher e;
  nonce_bytes = λ w. refl;
  nonce_size = λ w. refl;
  reads_json = λ store text e. cc;
  reads_file = λ text w e. refl;
  keeps_env = record {
    of_nonce = λ w. refl;
    of_create = λ w. refl;
    of_write = λ contents w. refl;
    of_dir = λ w. refl;
    of_file = λ w. refl;
  };
  keeps_dir = λ w. refl;
  keeps_file = λ w. refl;
}

abbrev ann : Account
ann = record { home = "/home/ann"; file = none }

-- Another user with a copy of the file.
abbrev bob : Account
bob = record { home = "/home/bob"; file = (save_to_file marking_vault "api" "pw" ann).0.file }

unmark_other :
    (plain cipher : Bytes)
    → mark (1 ∷ 2 ∷ []) plain ≡ some cipher
    → unmark (2 ∷ 2 ∷ []) cipher ≡ none
unmark_other plain [] e = refl
unmark_other plain (c ∷ cipher) e = ground arith

keys_differ :
    Refuses marking_vault (encryption_key marking_vault ann) (encryption_key marking_vault bob)
unfolding encryption_key resolve_home_dir
keys_differ nonce plain cipher e = unmark_other plain cipher e

saved_by_ann : (save_to_file marking_vault "api" "pw" ann).1 ≡ ok tt
unfolding save_to_file resolve_home_dir
saved_by_ann = refl

load_from_file-elsewhere_example :
    load_from_file marking_vault "api" bob ≡ err (message "failed to decrypt credential for 'api'")
load_from_file-elsewhere_example =
    load_from_file-elsewhere marking_vault marking_vault-IsFaithful "api" "pw" ann bob saved_by_ann
      refl keys_differ
