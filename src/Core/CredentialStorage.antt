-- ===== src/Core/CredentialStorage.antt =====
-- core/credential_storage.rs: credentials in the OS keychain, or encrypted in a file. The keychain,
-- the cipher, the file system and the JSON of the file are a parameter. A text of the file is
-- the list of its UTF-8 bytes; where `from_hex` would slice inside a character, and panic, the model
-- has an error. A nonce that is not of 12 bytes is a panic.
pub mod Hexadecimal
pub mod FileWork
pub mod RoundTrip
pub mod Keychain
use Prim.Native.String.{◌++◌}
use topdesk_mcp_rs.Core.ConfigManager.{resolve_home_dir}
use topdesk_mcp_rs.Core.Errors.{AnyError, message, panicked}
use topdesk_mcp_rs.Shared.{
  ℕ, ◌+◌, ◌-◌, ◌*◌, ◌/◌, ◌%◌, String, Bool, true, false, ◌&&◌, Option, none, some, List, [], ◌∷◌,
  ◌++◌ as ◌+++◌, Result, ok, err, ok_or, ◌>>=◌, length, leb, ltb, eqb, if◌then◌else◌,
}
use topdesk_mcp_rs.Shared.Dict
use topdesk_mcp_rs.Shared.Dict.{Dict}

abbrev pub Bytes : Type 0
Bytes = List ℕ

pub data KeyringError : Type 0 where
  no_entry : KeyringError
  unavailable : String → KeyringError

pub record Vault (W : Type 0) : Type 1 where
  -- A text that the file may hold.
  pub Contents : Type 0
  pub set_password : String → String → W → W × Result KeyringError (Unit {0})
  pub get_password : String → W → Result KeyringError String
  pub delete_password : String → W → W × Result KeyringError (Unit {0})
  pub generate_nonce : W → W × Bytes
  pub env_var : W → String → Option String
  pub sha256 : Bytes → Bytes
  -- AES-256-GCM under a key, with a nonce.
  pub encrypt : Bytes → Bytes → Bytes → Option Bytes
  pub decrypt : Bytes → Bytes → Bytes → Option Bytes
  pub as_bytes : String → Bytes
  pub from_utf8 : Bytes → Result AnyError String
  -- The fallback file: its contents, the directory, the write, and the permissions.
  pub read_fallback : W → Option Contents
  pub create_config_dir : W → W × Result AnyError (Unit {0})
  pub write_fallback : Contents → W → W × Result AnyError (Unit {0})
  pub restrict_dir : W → W × Result AnyError (Unit {0})
  pub restrict_file : W → W × Result AnyError (Unit {0})
  pub to_json : Dict Bytes → Result AnyError Contents
  pub from_json : Contents → Option (Dict Bytes)

-- A hexadecimal digit as its ASCII code.
unfoldable pub hex_digit : ℕ → ℕ
hex_digit n = if ltb n 10 then n + 48 else n + 87

-- `{b:02x}` of each byte.
unfoldable pub to_hex : Bytes → Bytes
to_hex [] = []
to_hex (b ∷ bytes) = hex_digit (b / 16) ∷ hex_digit (b % 16) ∷ to_hex bytes

-- The value of a digit in base 16, of either case.
unfoldable pub digit_value : ℕ → Option ℕ
digit_value c =
    if leb 48 c && leb c 57
    then some (c - 48)
    else if leb 97 c && leb c 102
    then some (c - 87)
    else if leb 65 c && leb c 70
    then some (c - 55)
    else none

-- `u8::from_str_radix` of two characters, the first of which may be a plus sign.
unfoldable pub parse_byte : ℕ → ℕ → Option ℕ
parse_byte c d = elim (digit_value d) [
  | none ↦ none
  | some low ↦
      if eqb c 43
      then some low
      else elim (digit_value c) [ none ↦ none | some high ↦ some (16 * high + low) ]
]

-- An odd length is an error before any digit is read.
unfoldable pub from_hex : Bytes → Result AnyError Bytes
from_hex [] = ok []
from_hex (c ∷ []) = err (message "odd-length hex string")
from_hex (c ∷ d ∷ input) = elim (from_hex input) [
  | err e ↦ err e
  | ok rest ↦ elim (parse_byte c d) [
    | none ↦ err (message "invalid digit found in string")
    | some b ↦ ok (b ∷ rest)
  ]
]

-- `split_once(':')`
unfoldable pub split_colon : Bytes → Option (Bytes × Bytes)
split_colon [] = none
split_colon (c ∷ text) =
    let rest = split_colon text in
    if eqb c 58
    then some ([], text)
    else elim rest [ none ↦ none | some (before, after) ↦ some (c ∷ before, after) ]

abbrev pub service_name : String
service_name = "topdesk-mcp"

module _ {W : Type 0} (v : Vault W) where
  unfoldable pub encryption_key : W → Bytes
  encryption_key w =
      v.sha256 (v.as_bytes (resolve_home_dir (v.env_var w)) +++ v.as_bytes service_name)

  unfoldable pub read_store : W → Dict Bytes
  read_store w = elim (v.read_fallback w) [
    | none ↦ []
    | some contents ↦ elim (v.from_json contents) [ none ↦ [] | some store ↦ store ]
  ]

  -- A step after one that succeeded.
  abbrev pub and_then :
      W × Result AnyError (Unit {0})
      → (W → W × Result AnyError (Unit {0}))
      → W × Result AnyError (Unit {0})
  and_then (w, ok _) f = f w
  and_then (w, err e) f = (w, err e)

  unfoldable pub write_store : Dict Bytes → W → W × Result AnyError (Unit {0})
  write_store store w = and_then (v.create_config_dir w) (λ w₁. elim (v.to_json store) [
    | err e ↦ (w₁, err e)
    | ok contents ↦
        and_then (and_then (v.write_fallback contents w₁) v.restrict_dir) v.restrict_file
  ])

  unfoldable pub save_to_file : String → String → W → W × Result AnyError (Unit {0})
  unfolding write_store read_store to_hex encryption_key
  save_to_file account value w =
      let (w₁, nonce) = v.generate_nonce w in
      elim (v.encrypt (encryption_key w) nonce (v.as_bytes value)) [
        | none ↦ (w₁, err (message "failed to encrypt credential"))
        | some ciphertext ↦
            write_store
              (Dict.insert account (to_hex nonce +++ (58 ∷ to_hex ciphertext)) (read_store w₁)) w₁
      ]

  -- The entry of the file, decrypted.
  unfoldable pub open_entry : Bytes → String → Bytes → Result AnyError String
  unfolding from_hex split_colon
  open_entry key account raw = do
    parts ← ok_or (split_colon raw) (message ("corrupt credential entry for '" ++ (account ++ "'")))
    nonce ← from_hex (parts.0)
    sized ← if eqb (length nonce) 12 then ok tt else err panicked
    ciphertext ← from_hex (parts.1)
    plaintext ←
        ok_or (v.decrypt key nonce ciphertext)
          (message ("failed to decrypt credential for '" ++ (account ++ "'")))
    v.from_utf8 plaintext

  unfoldable pub load_from_file : String → W → Result AnyError (Option String)
  unfolding open_entry read_store encryption_key
  load_from_file account w = elim (Dict.get account (read_store w)) [
    | none ↦ ok none
    | some raw ↦ open_entry (encryption_key w) account raw >>= λ value. ok (some value)
  ]

  unfoldable pub delete_from_file : String → W → W × Result AnyError (Unit {0})
  unfolding write_store read_store
  delete_from_file account w =
      let store = read_store w in
      if Dict.contains_key account store
      then write_store (Dict.remove account store) w
      else (w, ok tt)

  unfoldable pub save_credential : String → String → W → W × Result AnyError (Unit {0})
  unfolding save_to_file
  save_credential account value w =
      let (w₁, saved) = v.set_password account value w in
      elim saved [ ok _ ↦ (w₁, ok tt) | err _ ↦ save_to_file account value w₁ ]

  unfoldable pub load_credential : String → W → Result AnyError (Option String)
  unfolding load_from_file
  load_credential account w = elim (v.get_password account w) [
    | ok password ↦ ok (some password)
    | err _ ↦ load_from_file account w
  ]

  unfoldable pub delete_credential : String → W → W × Result AnyError (Unit {0})
  unfolding delete_from_file
  delete_credential account w =
      let (w₁, deleted) = v.delete_password account w in
      elim deleted [
        | ok _ ↦ (w₁, ok tt)
        | err no_entry ↦ (w₁, ok tt)
        | err (unavailable _) ↦ delete_from_file account w₁
      ]
